-- ===== src/Chip/Valid/Whole.antt =====
-- A whole run: from `chip32_new` to the end of `chip32_run`.
use chip.Prelude.{
  ℕ, zero, suc, ◌≤◌, ◌≡◌, ◌↔◌, refl, ◌∙◌, arith, Bool, true, false, Option, none, some, List, [],
  ◌∷◌, ◌==◌, if◌then◌else◌, inl, inr, Bool-cases, All,
}
use mathlib.Core.Path.{subst}
use mathlib.Core.Option.{some-injective}
use chip.Command.{Command, IsCommand}
use chip.Code.{initr_code}
use chip.Outcome.{
  Outcome, Post, returns, no_value, Partial, value, no_meaning, no_end, Partial-of, Partial-bind,
  Partial-if, done, undefined, unfinished,
}
use chip.Outcome
use chip.Chip.State.{Chip, Platform, Output, ◌>>◌, fail, emit, fail_load, fail_initr, state_fail}
use chip.Chip.Run.{
  Progress, running, stopped, fresh, chip_new, step, loop, finish, boot, boot_page, run,
}
use chip.Chip.Valid.Defs.{IsSound, IsValid}
use chip.Chip.Valid.Flow.{cmd_initr-Keeps}
use chip.Chip.Valid.Steps.{IsProgress, step-IsProgress}

-- The result of a run: a well-formed chip, and 0 exactly when it has not failed.
abbrev pub IsResult : Bool × Chip → Type 0
IsResult r = IsValid r.1 × ((r.0 ≡ true) ↔ (r.1.state ≡ 0))

module _ (p : Platform) (sound : IsSound p) where
  -- With a sound allocator, a chip that `chip32_new` returns is well formed, has no ram, is not failed and has
  -- the page size that was asked for.
  pub chip_new-IsValid :
      (room : Bool) (size : ℕ) (c : Chip)
      → chip_new p room size ≡ some c
      → IsValid c × (c.ram ≡ none) × (c.state ≡ 0) × (c.page_size ≡ size)
  unfolding chip_new
  chip_new-IsValid false size c e = cc
  chip_new-IsValid true size c e = go (p.alloc_page size) refl e
    where
      go :
          (o : Option (List Command))
          → p.alloc_page size ≡ o
          → elim o [ none ↦ none | some page ↦ some (fresh page size) ] ≡ some c
          → IsValid c × (c.ram ≡ none) × (c.state ≡ 0) × (c.page_size ≡ size)
      go none a f = cc
      go (some page) a f =
          subst (λ d. IsValid d × (d.ram ≡ none) × (d.state ≡ 0) × (d.page_size ≡ size))
            (some-injective _ _ f)
            (
              record {
                ram_block = tt;
                page_length = (sound.alloc_commands size page a).0;
                page_commands = (sound.alloc_commands size page a).1;
                state_known = inl refl;
              },
              refl,
              refl,
              refl,
            )

  loop-IsValid :
      (fuel n : ℕ) (c : Chip) → IsValid c → n ≤ c.page_size → Partial IsValid (loop p fuel n c)
  unfolding loop
  loop-IsValid zero n c v h = no_end
  loop-IsValid (suc fuel) n c v h =
      after (step p n c) (step-IsProgress p sound n c v h) (λ m d k q. loop-IsValid fuel m d k q)
    where
      after :
          (o : Outcome Progress)
          → Post (IsProgress c) o
          → ((m : ℕ) (d : Chip) → IsValid d → m ≤ d.page_size → Partial IsValid (loop p fuel m d))
          → Partial IsValid (elim o [
            | undefined ↦ undefined
            | unfinished ↦ unfinished
            | done (stopped c') ↦ done c'
            | done (running n' c') ↦ loop p fuel n' c'
          ])
      after (done (stopped d)) (returns k) rest = value k.0
      after (done (running m d)) (returns k) rest = rest m d k.0 k.2
      after undefined k rest = no_meaning
      after unfinished k rest = elim k [ ]

  finish-IsResult : (c : Chip) → IsValid c → IsResult (finish c)
  unfolding finish
  finish-IsResult c v = (v, ground arith)

  failed-IsResult : (c : Chip) → IsValid c → c.state ≡ state_fail → IsResult (false, c)
  failed-IsResult c v e = (v, ground arith)

  boot-IsResult :
      (fuel n : ℕ) (cmd : Command) (c : Chip)
      → IsValid c
      → IsCommand cmd
      → n ≤ c.page_size
      → Partial IsResult (boot p fuel n cmd c)
  unfolding boot
  boot-IsResult fuel n cmd c v h q =
      Partial-bind (Partial-of ((cmd_initr-Keeps p sound cmd h).post c v))
        (λ r k. choose r.1 k.1 (omega (arith, k.2.size_same)))
    where
      choose :
          (d : Chip)
          → IsValid d
          → n ≤ d.page_size
          → Partial IsResult (
              if d.state == state_fail
              then done (false, d)
              else Outcome.◌>>=◌ (loop p fuel n d) (λ c'. done (finish c')))
      choose d w m = elim (Bool-cases (d.state == state_fail)) [
        | inl t ↦ rw t (value (failed-IsResult d w (ground arith)))
        | inr f ↦
            rw f (Partial-bind (loop-IsValid fuel n d w m) (λ c' k. value (finish-IsResult c' k)))
      ]

  failing-IsResult :
      (o : Output) (c : Chip)
      → IsValid c
      → Partial IsResult (Outcome.◌>>=◌ ((fail >> emit o) c) (λ r. done (false, r.1)))
  unfolding fail emit
  failing-IsResult o c v = value (
      failed-IsResult _
        (record {
          ram_block = v.ram_block;
          page_length = v.page_length;
          page_commands = v.page_commands;
          state_known = inr refl;
        })
        refl)

  boot_page-IsResult :
      (fuel n : ℕ) (c : Chip) (loaded : List Command)
      → IsValid c
      → All IsCommand loaded
      → n ≤ c.page_size
      → Partial IsResult (boot_page p fuel n c loaded)
  unfolding boot_page
  boot_page-IsResult fuel n c [] v h q = no_meaning
  boot_page-IsResult fuel n c (cmd ∷ rest) v h q =
      Partial-if (cmd.code == initr_code) (boot-IsResult fuel n cmd c v h.0 q)
        (failing-IsResult fail_initr c v)

  -- With a sound allocator and loader, a run of a well-formed chip on any program and for any number of rounds, if it is defined and
  -- ends, leaves a well-formed chip, and returns 0 exactly when the state is 0.
  pub run-IsResult : (fuel : ℕ) (c : Chip) → IsValid c → Partial IsResult (run p fuel c)
  unfolding run
  run-IsResult fuel c v = go (p.load 0 c.page) refl
    where
      go :
          (o : Option (ℕ × List Command))
          → p.load 0 c.page ≡ o
          → Partial IsResult (elim o [
            | none ↦ Outcome.◌>>=◌ ((fail >> emit fail_load) c) (λ r. done (false, r.1))
            | some (n, loaded) ↦
                boot_page p fuel n (record c { page = loaded; page_current = 0 }) loaded
          ])
      go none e = failing-IsResult fail_load c v
      go (some (n, loaded)) e =
          let facts = sound.load_commands 0 c.page n loaded v.page_commands e in
          boot_page-IsResult fuel n _ loaded
            (record {
              ram_block = v.ram_block;
              page_length = facts.0 ∙ v.page_length;
              page_commands = facts.2;
              state_known = v.state_known;
            })
            facts.2 (omega (arith, facts.1, v.page_length))
