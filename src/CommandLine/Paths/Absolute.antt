-- ===== src/CommandLine/Paths/Absolute.antt =====
-- `path_resolve` in front of its loop, on a path that begins with `/`.
use chip.Prelude.{
  ==-false, ℕ, suc, ◌+◌, ◌-◌, ◌^◌, ◌%◌, ◌<◌, ◌≡◌, ◌≢◌, inl, inr, refl, ap, ◌∙◌, arith, Bool, true,
  false, ◌||◌, some, List, [], ◌∷◌, ◌++◌, length, ltb-false, le→leb, eq-cases, ◌==◌, if◌then◌else◌,
  take,
}
use chip.Outcome.{Outcome}
use chip.HashTable.Calls.{Call, undefined, done}
use chip.Strings.{str_equal, first_bytes, optional}
use chip.CommandLine.Paths.{
  Host, is_under, expanded, expand_home, expand_here, expand_above, resolve_loop, path_resolve,
  path_max,
}

pub optional-suc : (n : ℕ) (src : List ℕ) → optional (suc n) src ≡ suc n
optional-suc n src = ground arith

pub first_bytes-cons :
    (c : ℕ) (src : List ℕ)
    → first_bytes (suc (length src)) (c ∷ src)
      ≡ Outcome.done (c ∷ take (length src) (src ++ (0 ∷ [])))
unfolding first_bytes
first_bytes-cons c src =
    ap
      (λ b.
        if b
        then Outcome.done (take (suc (length src)) ((c ∷ src) ++ (0 ∷ [])))
        else Outcome.undefined)
      (le→leb (suc (length src)) (length (c ∷ src) + 1) (omega arith))

-- A path that begins with `/` is none of the names `~`, `.` and `..`.
pub str_equal-slash :
    (path name : List ℕ) (x : ℕ)
    → x ≢ 47
    → length path < path_max
    → length name < 2
    → str_equal (47 ∷ path) (suc (length path)) (x ∷ name) (suc (length name)) ≡ Outcome.done false
unfolding str_equal
str_equal-slash path name x h k l = elim (eq-cases (suc (length path)) (suc (length name))) [
  | inl e ↦
      let other : (47 == x) ≡ false = ground arith in
      let alike : (suc (length path) == suc (length name)) ≡ true = ground arith in
      let short : first_bytes (suc (length path)) (x ∷ name)
          ≡ Outcome.done (x ∷ take (length name) (name ++ (0 ∷ []))) =
        ap (λ n. first_bytes n (x ∷ name)) e ∙ first_bytes-cons x name in
      rw
        (
          optional-suc (length path) (47 ∷ path),
          optional-suc (length name) (x ∷ name),
          alike,
          first_bytes-cons 47 path,
          short,
          other,
        )
        refl
  | inr e ↦
      let differ : (suc (length path) == suc (length name)) ≡ false = ground arith in
      let far : (suc (length path) + 2 ^ 64 - suc (length name)) % 2 ^ 32 ≢ 0 =
        (λ z. omega arith) in
      let nonzero : ((suc (length path) + 2 ^ 64 - suc (length name)) % 2 ^ 32 == 0) ≡ false =
        ==-false _ 0 far in
      rw
        (
          optional-suc (length path) (47 ∷ path),
          optional-suc (length name) (x ∷ name),
          differ,
          nonzero,
        )
        refl
]

pub under-false :
    {A : Type 0} (path name : List ℕ) (k : Bool → Call A)
    → str_equal path (length path) name (length name) ≡ Outcome.done false
    → is_under path name false k ≡ k false
under-false path name k e =
    ap
      (λ o. elim o [
        | Outcome.done alike ↦ k (alike || false)
        | Outcome.undefined ↦ undefined
        | Outcome.unfinished ↦ undefined
      ])
      e

pub expanded-slash :
    (host : Host) (path : List ℕ)
    → length path < path_max
    → expanded host (47 ∷ path) ≡ done (47 ∷ path)
unfolding expanded
expanded-slash host path h =
    under-false (47 ∷ path) (126 ∷ []) (expand_home host (47 ∷ path))
      (str_equal-slash path [] 126 (λ e. omega arith) h (omega arith))
    ∙ under-false (47 ∷ path) (46 ∷ []) (expand_here host (47 ∷ path))
        (str_equal-slash path [] 46 (λ e. omega arith) h (omega arith))
    ∙ under-false (47 ∷ path) (46 ∷ 46 ∷ []) (expand_above host (47 ∷ path))
        (str_equal-slash path (46 ∷ []) 46 (λ e. omega arith) h (omega arith))

-- What `path_resolve` does with an absolute path.
pub path_resolve-slash :
    (host : Host) (path : List ℕ) (out : List ℕ)
    → ((n : ℕ) → host.malloc n ≡ true)
    → length path + 1 < path_max
    → resolve_loop [] (47 ∷ path) ≡ done out
    → path_resolve host (47 ∷ path) ≡ done (some out)
unfolding path_resolve
path_resolve-slash host path out enough small e =
    rw
      (
        ltb-false (path_max - 1) (length (47 ∷ path)) (omega arith),
        expanded-slash host path (omega arith),
        e,
        enough (length out + 1),
      )
      refl
