-- ===== src/CommandLine/Paths/Loop.antt =====
-- The loop of `path_resolve` on parts without `.`, and `path_kill_back`.
use mathlib.Core.List.{append-nil, append_assoc}
use chip.Prelude.{
  ℕ, ◌+◌, ◌-◌, ◌≤◌, ◌≡◌, ◌≢◌, refl, sym, ap, ◌∙◌, arith, true, false, ◌&&◌, ◌||◌, none, some, List,
  [], ◌∷◌, ◌++◌, length, length-append, All, ◌==◌, if◌then◌else◌, get_or, get_or-append, take,
  take-append,
}
use chip.HashTable.Calls.{done, ◌>>=◌}
use chip.CommandLine.Paths.{before_slash, without_slash, path_kill_back, resolve_loop, byte}

abbrev pub Lacks : ℕ → List ℕ → Type 0
Lacks d = All (λ c. c ≢ d)

-- A byte other than `.` is copied.
pub resolve_loop-step :
    (out : List ℕ) (c : ℕ) (parse : List ℕ)
    → c ≢ 46
    → resolve_loop out (c ∷ parse) ≡ resolve_loop (out ++ (c ∷ [])) parse
unfolding resolve_loop
resolve_loop-step out c [] h = refl
resolve_loop-step out c (d ∷ parse) h =
    let no_dot : (c == 46) ≡ false = ground arith in
    ap
      (λ b. elim (b && d == 47) [
        | true ↦ resolve_loop out parse
        | false ↦ elim (b && (d == 46 && (byte parse 0 == 0 || byte parse 0 == 47))) [
          | true ↦ path_kill_back out >>= λ o. resolve_loop o parse
          | false ↦ resolve_loop (out ++ (c ∷ [])) (d ∷ parse)
        ]
      ])
      no_dot

pub resolve_loop-append :
    (s out parse : List ℕ)
    → Lacks 46 s
    → resolve_loop out (s ++ parse) ≡ resolve_loop (out ++ s) parse
resolve_loop-append [] out parse h = ap (λ o. resolve_loop o parse) (sym (append-nil out))
resolve_loop-append (c ∷ s) out parse h =
    resolve_loop-step out c (s ++ parse) h.0
    ∙ resolve_loop-append s (out ++ (c ∷ [])) parse h.1
    ∙ ap (λ o. resolve_loop o parse) (append_assoc out (c ∷ []) s)

pub resolve_loop-rest : (s out : List ℕ) → Lacks 46 s → resolve_loop out s ≡ done (out ++ s)
resolve_loop-rest s out h =
    ap (resolve_loop out) (sym (append-nil s))
    ∙ resolve_loop-append s out [] h
    ∙ (let e : resolve_loop (out ++ s) [] ≡ done (out ++ s) = unfold resolve_loop in refl in e)

pub before_slash-none : (name : List ℕ) → Lacks 47 name → before_slash name ≡ none
unfolding before_slash
before_slash-none [] h = refl
before_slash-none (c ∷ name) h =
    let no_slash : (c == 47) ≡ false = (let n = h.0 in ground arith) in
    rw (before_slash-none name h.1, no_slash) refl

pub before_slash-append :
    (p name : List ℕ) → Lacks 47 name → before_slash (p ++ (47 ∷ name)) ≡ some p
unfolding before_slash
before_slash-append [] name h = rw (before_slash-none name h) refl
before_slash-append (c ∷ p) name h = rw (before_slash-append p name h) refl

pub without_slash-append : (q : List ℕ) → without_slash (q ++ (47 ∷ [])) ≡ q
unfolding without_slash
without_slash-append q =
    let last : length (q ++ (47 ∷ [])) - 1 ≡ length q + 0 =
      omega (arith, length-append q (47 ∷ [])) in
    let back : length (q ++ (47 ∷ [])) - 1 ≡ length q = omega (arith, length-append q (47 ∷ [])) in
    let slash : get_or (q ++ (47 ∷ [])) (length (q ++ (47 ∷ [])) - 1) 0 ≡ 47 =
      ap (λ i. get_or (q ++ (47 ∷ [])) i 0) last ∙ get_or-append q (47 ∷ []) 0 0 in
    ap
      (λ b. if b == 47 then take (length (q ++ (47 ∷ [])) - 1) (q ++ (47 ∷ [])) else q ++ (47 ∷ []))
      slash
    ∙ ap (λ n. take n (q ++ (47 ∷ []))) back
    ∙ take-append q (47 ∷ [])

pub path_kill_back-front :
    (path front : List ℕ)
    → 2 ≤ length path
    → before_slash (without_slash path) ≡ some front
    → path_kill_back path ≡ done front
unfolding path_kill_back
path_kill_back-front [] front h e = absurd (omega arith)
path_kill_back-front (x ∷ []) front h e = absurd (omega arith)
path_kill_back-front (x ∷ y ∷ path) front h e =
    ap (λ o. elim o [ none ↦ done (without_slash (x ∷ y ∷ path)) | some front ↦ done front ]) e
