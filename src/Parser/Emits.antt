-- ===== src/Parser/Emits.antt =====
-- The actions other than `action_declare`: each makes one command.
use chip.Prelude.{
  ℕ, ◌+◌, ◌*◌, ◌≡◌, ◌≢◌, refl, ap, ◌∙◌, Bool, true, false, Option, none, some, List, [], ◌∷◌, ◌++◌,
  length, leb, get_elem?, if◌then◌else◌,
}
use chip.Command.{Command}
use chip.Code.{
  and_code, band_code, bnot_code, bor_code, call_code, dec_code, dif_code, div_code, iff_code,
  ift_code, inc_code, initr_code, jmp_code, logc_code, logi_code, logln_code, logs_code, logu_code,
  mod_code, move_code, mul_code, nop_code, not_code, or_code, pop_code, push_code, ret_code,
  rol_code, ror_code, shl_code, shr_code, strcpy_code, sum_code, xor_code,
}
use chip.Outcome.{Outcome, done, Post, returns, Post-bind, Post-if}
use chip.Outcome.Post.{no_value as nothing}
use chip.Lexer.{Token}
use chip.Parser.{
  Symbols, Library, Parser, new_command, with_operand, parse_noarg, parse_onearg, parse_twoarg,
  two_operands, action_jmpi, branch_action, action_initr, next_token, atom_of,
}
use chip.Parser.Actions.{
  Calculation, Transfer, calculation, transfer, nop, move, inc, dec, sum, dif, mul, div, modulo, or,
  xor, and, not, shl, shr, rol, ror, bor, band, bnot, jmp, call, ret, push, pop, logi, logu, logc,
  logs, logln, strcpy,
}
use chip.Parser.Commands.{Action, declare, initr, jmpi, ift, iff, calculates, transfers}
use chip.Parser.Dispatch.{run_action}
use chip.Parser.Keeps.{
  Keeps, kept, Post-option, Post-atom, parse_label-Keeps, missing-Keeps, parse_lvalue-Keeps,
  parse_rvalue-Keeps,
}

-- The codes of the commands that the actions make.
abbrev calculation_code : Calculation → ℕ
calculation_code nop = nop_code
calculation_code move = move_code
calculation_code inc = inc_code
calculation_code dec = dec_code
calculation_code sum = sum_code
calculation_code dif = dif_code
calculation_code mul = mul_code
calculation_code div = div_code
calculation_code modulo = mod_code
calculation_code or = or_code
calculation_code xor = xor_code
calculation_code and = and_code
calculation_code not = not_code
calculation_code shl = shl_code
calculation_code shr = shr_code
calculation_code rol = rol_code
calculation_code ror = ror_code
calculation_code bor = bor_code
calculation_code band = band_code
calculation_code bnot = bnot_code
calculation_code jmp = jmp_code

abbrev transfer_code : Transfer → ℕ
transfer_code call = call_code
transfer_code ret = ret_code
transfer_code push = push_code
transfer_code pop = pop_code
transfer_code logi = logi_code
transfer_code logu = logu_code
transfer_code logc = logc_code
transfer_code logs = logs_code
transfer_code logln = logln_code
transfer_code strcpy = strcpy_code

abbrev pub action_code : Action → ℕ
action_code declare = nop_code
action_code initr = initr_code
action_code jmpi = jmp_code
action_code ift = ift_code
action_code iff = iff_code
action_code (calculates s) = calculation_code s
action_code (transfers s) = transfer_code s

module _ {S : Type 0} (symbols : Symbols S) (library : Library) where
  -- One command with that code is made where the result is 0, and the text is left as it is.
  abbrev pub Emits : ℕ → Parser S → Bool × Parser S → Type 0
  Emits code c r =
      r.0 ≡ true
      → (m : Command) × (r.1.mc ≡ c.mc ++ (m ∷ [])) × (m.code ≡ code) × (r.1.code ≡ c.code)

  new_command-Emits :
      (m : Command) (c d : Parser S)
      → kept symbols library d ≡ kept symbols library c
      → Post (Emits m.code c) (new_command symbols library m d)
  unfolding new_command
  new_command-Emits m c d e =
      let full = leb d.mcsize (length d.mc) in
      Post-if (if full then library.realloc (if full then d.mcsize * 2 else d.mcsize) else true)
        (returns (λ t. (m, ap (λ k. k.0 ++ (m ∷ [])) e, refl, ap (λ k. k.1) e))) nothing

  with_operand-Emits :
      (code : ℕ) (c d : Parser S) {o : Outcome (Option (ℕ × ℕ × ℕ) × Parser S)}
      {k : ℕ × ℕ × ℕ → Parser S → Outcome (Bool × Parser S)}
      → kept symbols library d ≡ kept symbols library c
      → Post (Keeps symbols library d) o
      → ((v : ℕ × ℕ × ℕ) (e : Parser S)
          → kept symbols library e ≡ kept symbols library c
          → Post (Emits code c) (k v e))
      → Post (Emits code c) (with_operand symbols library o k)
  with_operand-Emits code c d {o} {k} e h after = Post-bind h (λ r l. operand r.0 r.1 (l ∙ e))
    where
      operand :
          (v : Option (ℕ × ℕ × ℕ)) (e : Parser S)
          → kept symbols library e ≡ kept symbols library c
          → Post (Emits code c) (elim v [ none ↦ done (false, e) | some v ↦ k v e ])
      operand none e l = returns (λ t. cc)
      operand (some v) e l = after v e l

  two_operands-Emits :
      (code : ℕ) (ts : List Token) (c : Parser S)
      (k : ℕ → ℕ → ℕ → Parser S → Outcome (Bool × Parser S))
      → ((f a b : ℕ) (e : Parser S)
          → kept symbols library e ≡ kept symbols library c
          → Post (Emits code c) (k f a b e))
      → Post (Emits code c) (two_operands symbols library ts c k)
  unfolding two_operands
  two_operands-Emits code ts c k after = Post-bind (parse_label-Keeps symbols library ts c) (λ l e.
      with_operand-Emits _ c l.1 e (parse_lvalue-Keeps symbols library ts (next_token l.0) 0 l.1)
        (λ v d g.
          with_operand-Emits _ c d g
            (Post-if (leb (length ts) (v.0 + 1)) (missing-Keeps symbols library ts (v.0 + 1) d)
              (parse_rvalue-Keeps symbols library ts (v.0 + 1) v.1 true d))
            (λ w u n. after w.1 v.2 w.2 u n)))

  parse_noarg-Emits :
      (code : ℕ) (ts : List Token) (c : Parser S)
      → Post (Emits code c) (parse_noarg symbols library code ts c)
  unfolding parse_noarg
  parse_noarg-Emits code ts c =
      Post-bind (parse_label-Keeps symbols library ts c) (λ l e. new_command-Emits _ c l.1 e)

  parse_onearg-Emits :
      (code : ℕ) (ts : List Token) (c : Parser S)
      → Post (Emits code c) (parse_onearg symbols library code ts c)
  unfolding parse_onearg
  parse_onearg-Emits code ts c = Post-bind (parse_label-Keeps symbols library ts c) (λ l e.
      with_operand-Emits _ c l.1 e
        (parse_rvalue-Keeps symbols library ts (next_token l.0) 0 false l.1)
        (λ v d g. new_command-Emits _ c d g))

  parse_twoarg-Emits :
      (code : ℕ) (ts : List Token) (c : Parser S)
      → Post (Emits code c) (parse_twoarg symbols library code ts c)
  unfolding parse_twoarg
  parse_twoarg-Emits code ts c =
      two_operands-Emits _ ts c _ (λ f a b e g. new_command-Emits _ c e g)

  action_initr-Emits :
      (ts : List Token) (c : Parser S)
      → Post (Emits initr_code c) (action_initr symbols library ts c)
  unfolding action_initr
  action_initr-Emits ts c = Post-bind (parse_label-Keeps symbols library ts c) (λ l e.
      Post-if (leb (length ts) (next_token l.0))
        (with_operand-Emits _ c l.1 e (missing-Keeps symbols library ts (next_token l.0) l.1)
          (λ v d g. nothing))
        (Post-option (get_elem? ts (next_token l.0)) nothing (λ t.
          Post-atom (atom_of t.type) (new_command-Emits _ c l.1 e) (returns (λ t. cc))
            (returns (λ t. cc)))))

  calculation-Emits :
      (s : Calculation) (ts : List Token) (c : Parser S)
      → Post (Emits (calculation_code s) c) (calculation symbols library s ts c)
  unfolding calculation
  calculation-Emits nop ts c = parse_noarg-Emits _ ts c
  calculation-Emits move ts c = parse_twoarg-Emits _ ts c
  calculation-Emits inc ts c = parse_onearg-Emits _ ts c
  calculation-Emits dec ts c = parse_onearg-Emits _ ts c
  calculation-Emits sum ts c = parse_twoarg-Emits _ ts c
  calculation-Emits dif ts c = parse_twoarg-Emits _ ts c
  calculation-Emits mul ts c = parse_twoarg-Emits _ ts c
  calculation-Emits div ts c = parse_twoarg-Emits _ ts c
  calculation-Emits modulo ts c = parse_twoarg-Emits _ ts c
  calculation-Emits or ts c = parse_twoarg-Emits _ ts c
  calculation-Emits xor ts c = parse_twoarg-Emits _ ts c
  calculation-Emits and ts c = parse_twoarg-Emits _ ts c
  calculation-Emits not ts c = parse_twoarg-Emits _ ts c
  calculation-Emits shl ts c = parse_twoarg-Emits _ ts c
  calculation-Emits shr ts c = parse_twoarg-Emits _ ts c
  calculation-Emits rol ts c = parse_twoarg-Emits _ ts c
  calculation-Emits ror ts c = parse_twoarg-Emits _ ts c
  calculation-Emits bor ts c = parse_twoarg-Emits _ ts c
  calculation-Emits band ts c = parse_twoarg-Emits _ ts c
  calculation-Emits bnot ts c = parse_onearg-Emits _ ts c
  calculation-Emits jmp ts c = parse_onearg-Emits _ ts c

  transfer-Emits :
      (s : Transfer) (ts : List Token) (c : Parser S)
      → Post (Emits (transfer_code s) c) (transfer symbols library s ts c)
  unfolding transfer
  transfer-Emits call ts c = parse_onearg-Emits _ ts c
  transfer-Emits ret ts c = parse_noarg-Emits _ ts c
  transfer-Emits push ts c = parse_twoarg-Emits _ ts c
  transfer-Emits pop ts c = parse_onearg-Emits _ ts c
  transfer-Emits logi ts c = parse_onearg-Emits _ ts c
  transfer-Emits logu ts c = parse_onearg-Emits _ ts c
  transfer-Emits logc ts c = parse_onearg-Emits _ ts c
  transfer-Emits logs ts c = parse_onearg-Emits _ ts c
  transfer-Emits logln ts c = parse_noarg-Emits _ ts c
  transfer-Emits strcpy ts c = parse_twoarg-Emits _ ts c

  pub run_action-Emits :
      (a : Action) (ts : List Token) (c : Parser S)
      → a ≢ declare
      → Post (Emits (action_code a) c) (run_action symbols library a ts c)
  unfolding run_action action_jmpi branch_action
  run_action-Emits declare ts c n = absurd (n refl)
  run_action-Emits initr ts c n = action_initr-Emits ts c
  run_action-Emits jmpi ts c n = Post-bind (parse_label-Keeps symbols library ts c) (λ l e.
      with_operand-Emits _ c l.1 e
        (parse_rvalue-Keeps symbols library ts (next_token l.0) 0 false l.1)
        (λ v d g. new_command-Emits _ c d g))
  run_action-Emits ift ts c n = two_operands-Emits _ ts c _ (λ f a b e g. new_command-Emits _ c e g)
  run_action-Emits iff ts c n = two_operands-Emits _ ts c _ (λ f a b e g. new_command-Emits _ c e g)
  run_action-Emits (calculates s) ts c n = calculation-Emits s ts c
  run_action-Emits (transfers s) ts c n = transfer-Emits s ts c
