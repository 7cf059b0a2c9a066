-- ===== src/Chip/Valid/Flow.antt =====
-- The steering commands keep a chip well formed.
use chip.Prelude.{
  ℕ, ◌≡◌, refl, sym, ◌∙◌, arith, Bool, true, false, Option, none, some, List, ◌==◌, if◌then◌else◌,
}
use chip.Word.{IsWord, sub_unsigned}
use chip.Word.Signed.{add-IsWord, sub-IsWord}
use chip.Word.Shift.{sub_unsigned-IsWord}
use chip.Command.{Command, IsCommand, arg0f_get, arg1f_get}
use chip.Outcome.{Post, Post-map}
use chip.Chip.State.{Chip, Platform, ◌>>◌, store_ram, fail, reg_pc, reg_stk, reg_frm}
use chip.Chip.Operand.{getword}
use chip.Chip.Flow.{
  branch, post_dec_stk, pop_stk, push_stk, alloc_ram, first_initr, cmd_jmp, cmd_ift, cmd_iff,
  cmd_call, cmd_ret, cmd_push, cmd_pop, cmd_initr,
}
use chip.Chip.Valid.Defs.{
  IsSound, IsValid, Frame, Keeps, Any, Keeps-pure, Keeps-bind, Keeps-lift, Keeps-if,
  Keeps-undefined, load_ram-Keeps, store_ram-Keeps, fail-Keeps,
}
use chip.Chip.Valid.Operands.{getword-Keeps, setword-Keeps, Keeps-then}

post_dec_stk-Keeps : Keeps IsWord post_dec_stk
unfolding post_dec_stk
post_dec_stk-Keeps = Keeps-bind (load_ram-Keeps reg_stk) (λ s hs.
    Keeps-bind (Keeps-lift (sub-IsWord s 1))
      (λ s' hs'. Keeps-then (store_ram-Keeps reg_stk s' hs') (Keeps-pure hs)))

pop_stk-Keeps : Keeps IsWord pop_stk
unfolding pop_stk
pop_stk-Keeps = Keeps-bind (load_ram-Keeps reg_stk) (λ s _.
    Keeps-bind (Keeps-lift (add-IsWord s 1)) (λ s' hs'.
      Keeps-then (store_ram-Keeps reg_stk s' hs')
        (Keeps-if (s' == reg_stk) Keeps-undefined (load_ram-Keeps s'))))

push_stk-Keeps : (v : ℕ) → IsWord v → Keeps Any (push_stk v)
unfolding push_stk
push_stk-Keeps v h =
    Keeps-bind post_dec_stk-Keeps
      (λ s _. Keeps-if (s == reg_stk) Keeps-undefined (store_ram-Keeps s v h))

pub cmd_ret-Keeps : (p : Platform) (cmd : Command) → Keeps Any (cmd_ret p cmd)
unfolding cmd_ret
cmd_ret-Keeps p cmd = Keeps-bind (load_ram-Keeps reg_frm) (λ frm hf.
    Keeps-then (store_ram-Keeps reg_stk frm hf) (
      Keeps-bind pop_stk-Keeps (λ old ho.
        Keeps-then (store_ram-Keeps reg_frm old ho)
          (Keeps-bind pop_stk-Keeps (λ pc hp. store_ram-Keeps reg_pc pc hp)))))

-- A frame from another chip with the same page.
reframe :
    (c d e : Chip)
    → c.page ≡ e.page
    → c.page_current ≡ e.page_current
    → c.page_size ≡ e.page_size
    → Frame c d
    → Frame e d
reframe c d e p q r f = record {
  page_same = f.page_same ∙ p;
  current_same = f.current_same ∙ q;
  size_same = f.size_same ∙ r;
}

module _ (p : Platform) (sound : IsSound p) (cmd : Command) (valid : IsCommand cmd) where
  operand-Keeps : Keeps IsWord (getword p (arg0f_get cmd.flags) cmd.arg0)
  operand-Keeps = getword-Keeps p sound (arg0f_get cmd.flags) cmd.arg0 valid.arg0_word

  pub cmd_jmp-Keeps : Keeps Any (cmd_jmp p cmd)
  unfolding cmd_jmp
  cmd_jmp-Keeps =
      Keeps-bind operand-Keeps (λ v _. store_ram-Keeps reg_pc _ (sub_unsigned-IsWord v 1))

  branch-Keeps : Keeps Any (branch p cmd)
  unfolding branch
  branch-Keeps =
      Keeps-bind (getword-Keeps p sound (arg1f_get cmd.flags) cmd.arg1 valid.arg1_word)
        (λ r _. Keeps-bind (Keeps-lift (sub-IsWord r 1)) (λ w hw. store_ram-Keeps reg_pc w hw))

  pub cmd_ift-Keeps : Keeps Any (cmd_ift p cmd)
  unfolding cmd_ift
  cmd_ift-Keeps = Keeps-bind operand-Keeps (λ v _. Keeps-if (v == 0) branch-Keeps (Keeps-pure tt))

  pub cmd_iff-Keeps : Keeps Any (cmd_iff p cmd)
  unfolding cmd_iff
  cmd_iff-Keeps = Keeps-bind operand-Keeps (λ v _. Keeps-if (v == 0) (Keeps-pure tt) branch-Keeps)

  pub cmd_call-Keeps : Keeps Any (cmd_call p cmd)
  unfolding cmd_call
  cmd_call-Keeps = Keeps-bind operand-Keeps (λ v _. Keeps-bind (load_ram-Keeps reg_pc) (λ pc hp.
      Keeps-then (push_stk-Keeps pc hp) (
        Keeps-bind (load_ram-Keeps reg_frm) (λ frm hf. Keeps-then (push_stk-Keeps frm hf) (
          Keeps-bind (load_ram-Keeps reg_stk) (λ stk hs.
            Keeps-then (store_ram-Keeps reg_frm stk hs)
              (store_ram-Keeps reg_pc _ (sub_unsigned-IsWord v 1))))))))

  pub cmd_push-Keeps : Keeps Any (cmd_push p cmd)
  unfolding cmd_push
  cmd_push-Keeps = Keeps-if p.value_first (Keeps-bind operand-Keeps (λ v hv. push_stk-Keeps v hv)) (
      Keeps-bind post_dec_stk-Keeps (λ s _.
        Keeps-bind operand-Keeps
          (λ v hv. Keeps-if (s == reg_stk) Keeps-undefined (store_ram-Keeps s v hv))))

  pub cmd_pop-Keeps : Keeps Any (cmd_pop p cmd)
  unfolding cmd_pop
  cmd_pop-Keeps =
      Keeps-bind pop_stk-Keeps (λ v hv. setword-Keeps (arg0f_get cmd.flags) cmd.arg0 v hv)

  initr_registers-Keeps :
      (size : ℕ)
      → Keeps Any (do
        store_ram reg_pc 1
        store_ram reg_stk (sub_unsigned size 1)
        store_ram reg_frm (sub_unsigned size 1))
  initr_registers-Keeps size =
      let word = sub_unsigned-IsWord size 1 in
      Keeps-then (store_ram-Keeps reg_pc 1 (omega arith))
        (Keeps-then (store_ram-Keeps reg_stk _ word) (store_ram-Keeps reg_frm _ word))

  block-IsValid :
      (size : ℕ) (m : List ℕ) (c : Chip)
      → IsValid c
      → c.ramsize ≡ size
      → p.alloc size ≡ some m
      → IsValid (record c { ram = some m })
  block-IsValid size m c v e a = record {
    ram_block = ((sound.alloc_block size m a).0 ∙ sym e, (sound.alloc_block size m a).1);
    page_length = v.page_length;
    page_commands = v.page_commands;
    state_known = v.state_known;
  }

  alloc_ram-Post :
      (size : ℕ) (c : Chip)
      → IsValid c
      → c.ramsize ≡ size
      → Post (λ (r : Unit {0} × Chip). Any r.0 × IsValid r.1 × Frame c r.1) (alloc_ram p size c)
  unfolding alloc_ram
  alloc_ram-Post size c v e = go (p.alloc size) refl
    where
      go :
          (o : Option (List ℕ))
          → p.alloc size ≡ o
          → Post
              (λ (r : Unit {0} × Chip). Any r.0 × IsValid r.1 × Frame c r.1)
              (elim o [
                | none ↦ fail c
                | some m ↦
                    (do
                      store_ram reg_pc 1
                      store_ram reg_stk (sub_unsigned size 1)
                      store_ram reg_frm (sub_unsigned size 1))
                      (record c { ram = some m })
              ])
      go none a = fail-Keeps.post c v
      go (some m) a =
          Post-map
            ((initr_registers-Keeps size).post (record c { ram = some m })
              (block-IsValid size m c v e a))
            (λ r h. (h.0, h.1, reframe (record c { ram = some m }) r.1 c refl refl refl h.2))

  -- The block that `initr` gives a chip without one.
  first_initr-Post :
      (size : ℕ) (c : Chip)
      → IsValid c
      → c.ram ≡ none
      → Post (λ (r : Unit {0} × Chip). Any r.0 × IsValid r.1 × Frame c r.1) (first_initr p size c)
  unfolding first_initr
  first_initr-Post size c v e =
      Post-map (pick (size == 0)) (λ r h. (h.0, h.1, reframe sized r.1 c refl refl refl h.2))
    where
      sized : Chip
      sized = record c { ramsize = size }

      valid_sized : IsValid sized
      valid_sized = record {
        ram_block = rw e tt;
        page_length = v.page_length;
        page_commands = v.page_commands;
        state_known = v.state_known;
      }

      pick :
          (b : Bool)
          → Post
              (λ (r : Unit {0} × Chip). Any r.0 × IsValid r.1 × Frame sized r.1)
              (if b then fail sized else alloc_ram p size sized)
      pick true = fail-Keeps.post sized valid_sized
      pick false = alloc_ram-Post size sized valid_sized refl

  pub cmd_initr-Keeps : Keeps Any (cmd_initr p cmd)
  unfolding cmd_initr
  cmd_initr-Keeps = record { post = λ c v. go c v c.ram refl }
    where
      go :
          (c : Chip) (v : IsValid c) (o : Option (List ℕ))
          → c.ram ≡ o
          → Post
              (λ (r : Unit {0} × Chip). Any r.0 × IsValid r.1 × Frame c r.1)
              (elim o [ some _ ↦ fail c | none ↦ first_initr p cmd.arg0 c ])
      go c v (some m) e = fail-Keeps.post c v
      go c v none e = first_initr-Post cmd.arg0 c v e
