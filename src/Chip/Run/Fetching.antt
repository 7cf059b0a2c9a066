-- ===== src/Chip/Run/Fetching.antt =====
-- What a round executes inside the first page, and where it goes on behind a branch.
use mathlib.Core.Path.{subst}
use chip.Prelude.{
  ℕ, zero, suc, ◌+◌, ◌<◌, ◌≤◌, ◌≡◌, ◌⊎◌, inl, inr, refl, sym, ap, ◌∙◌, arith, none, some, List, [],
  ◌∷◌, ltb, ◌==◌, if◌then◌else◌, get_elem?, set, All-get_elem?, lt→ltb,
}
use chip.Word.{half_mod}
use chip.Command.{Command, IsCommand, arg0f_get, arg1f_get}
use chip.Code.{ift_code, iff_code}
use chip.Outcome.{Outcome, Post, returns, no_value, done, undefined, unfinished}
use chip.Outcome
use chip.Chip.State.{Chip, Platform, ◌>>◌, ◌>>=◌, cell, reg_pc}
use chip.Chip.Cells.{Reads}
use chip.Chip.Table.{
  Plain, plain, ift, iff, table, entry, commands, call_plain, call_handler, store_command, exec,
}
use chip.Chip.Run.{running, inc_pc, exec_at, step}
use chip.Chip.Run.Jumps.{Continues, cmd_ift-cmd_iff}
use chip.Chip.Run.Pages.{step_first_page}
use chip.Chip.Valid.Defs.{IsSound, IsValid, Frame}
use chip.Chip.Valid.Commands.{call_plain-Keeps}

set_same : {A : Type 0} (l : List A) (i : ℕ) {x : A} → get_elem? l i ≡ some x → set l i x ≡ l
set_same [] i e = refl
set_same (y ∷ l) zero e = cc
set_same (y ∷ l) (suc i) e = ap (λ t. y ∷ t) (set_same l i e)

module _ (p : Platform) (sound : IsSound p) (c : Chip) (valid : IsValid c) (pc : ℕ) (cmd : Command)
    (there : get_elem? c.page pc ≡ some cmd) where
  -- Where a handler has left the page, the command can be put back in its place.
  stored :
      (o : Outcome (Unit {0} × Chip))
      → Post (λ (r : Unit {0} × Chip). Unit {0} × IsValid r.1 × Frame c r.1) o
      → Outcome.◌>>=◌ o (λ r. store_command pc cmd r.1) ≡ o
  unfolding store_command
  stored (done (_, d)) (returns h) =
      let same : set d.page pc cmd ≡ d.page =
        set_same d.page pc (ap (λ l. get_elem? l pc) (h.2.page_same) ∙ there) in
      ap (λ l. done (tt, record d { page = l })) same
  stored undefined no_value = refl
  stored unfinished h = elim h [ ]

  -- A command that is not changed is executed as its handler called with it.
  exec_lem :
      (h : Plain) → pc < half_mod → commands cmd.code ≡ plain h → exec p pc c ≡ call_plain h p cmd c
  unfolding exec call_handler
  exec_lem h small handler =
      let fetched : (if ltb pc half_mod then get_elem? c.page pc else none) ≡ some cmd =
        rw (lt→ltb pc half_mod small) there in
      let command = All-get_elem? IsCommand c.page pc valid.page_commands there in
      ap
        (λ o. elim o [
          | none ↦ undefined
          | some x ↦ (call_handler (commands x.code) p x >>= λ y. store_command pc y) c
        ])
        fetched
      ∙ ap (λ k. (call_handler k p cmd >>= λ y. store_command pc y) c) handler
      ∙ putting (call_plain h p cmd c)
      ∙ stored (call_plain h p cmd c) ((call_plain-Keeps p sound cmd command h).post c valid)
    where
      putting :
          (o : Outcome (Unit {0} × Chip))
          → Outcome.◌>>=◌ {A = Command × Chip}
              (Outcome.◌>>=◌ o (λ r. done (cmd, r.1)))
              (λ r. store_command pc r.0 r.1)
            ≡ Outcome.◌>>=◌ o (λ r. store_command pc cmd r.1)
      putting (done r) = refl
      putting undefined = refl
      putting unfinished = refl

  -- A round in the first page with such a command.
  round_lem :
      (n : ℕ) (h : Plain) (d : Chip)
      → commands cmd.code ≡ plain h
      → c.state ≡ 0
      → c.page_current ≡ 0
      → cell c reg_pc ≡ some pc
      → pc < n
      → n ≤ c.page_size
      → pc < half_mod
      → (call_plain h p cmd >> inc_pc) c ≡ done (tt, d)
      → step p n c ≡ done (running n d)
  unfolding exec_at
  round_lem n h d handler runs first at_pc filled room small ended =
      let at : exec_at p pc c ≡ done (tt, d) =
        ap (λ o. Outcome.◌>>=◌ o (λ r. inc_pc r.1)) (exec_lem h small handler) ∙ ended in
      step_first_page p n c pc runs first at_pc (omega arith) small
      ∙ rw (lt→ltb pc n filled, at) refl

-- The address behind `ift` or `iff` at `pc`, with the first operand `v` and the target `t`.
abbrev pub goes_on : ℕ → ℕ → ℕ → ℕ → ℕ
goes_on code v t pc =
    if code == ift_code then (if v == 0 then t else (pc + 1)) else (if v == 0 then (pc + 1) else t)

ift_handler : (code : ℕ) → code ≡ ift_code → commands code ≡ plain ift
unfolding commands table entry
ift_handler code e = rw e refl

iff_handler : (code : ℕ) → code ≡ iff_code → commands code ≡ plain iff
unfolding commands table entry
iff_handler code e = rw e refl

-- With a sound allocator and loader, on a well-formed chip that runs in its first page: where the page holds `ift`
-- or `iff` at the program counter, at which the loader filled it, the operands can be read, and the target and
-- the next command are below 2 ^ 31, a round executes that command and the loop goes on, with the program counter at
-- the command's target or behind the command as the first operand is 0 or not, and with no other cell changed.
pub step-Continues :
    (p : Platform) (n : ℕ) (c : Chip) (pc : ℕ) (cmd : Command) (v t : ℕ)
    → IsSound p
    → IsValid c
    → c.state ≡ 0
    → c.page_current ≡ 0
    → cell c reg_pc ≡ some pc
    → pc < n
    → n ≤ c.page_size
    → pc + 1 < half_mod
    → get_elem? c.page pc ≡ some cmd
    → (cmd.code ≡ ift_code) ⊎ (cmd.code ≡ iff_code)
    → Reads p c (arg0f_get cmd.flags) cmd.arg0 v
    → Reads p c (arg1f_get cmd.flags) cmd.arg1 t
    → t < half_mod
    → (d : Chip) × (step p n c ≡ done (running n d)) × Continues c d (goes_on cmd.code v t pc)
unfolding call_plain
step-Continues p n c pc cmd v t sound valid runs first at_pc filled room small there code r0 r1 ht =
    let (taken, passed) = cmd_ift-cmd_iff p c cmd v t pc r0 r1 at_pc ht small in
    elim code [
      | inl e ↦
          let handler : commands cmd.code ≡ plain ift = ift_handler cmd.code e in
          (
            taken.0,
            round_lem p sound c valid pc cmd there n ift taken.0 handler runs first at_pc filled
                room (omega arith) taken.1,
            subst (λ x. Continues c taken.0 (goes_on x v t pc)) (sym e) taken.2,
          )
      | inr e ↦
          let handler : commands cmd.code ≡ plain iff = iff_handler cmd.code e in
          (
            passed.0,
            round_lem p sound c valid pc cmd there n iff passed.0 handler runs first at_pc filled
                room (omega arith) passed.1,
            subst (λ x. Continues c passed.0 (goes_on x v t pc)) (sym e) passed.2,
          )
    ]
