-- ===== src/Chip/Valid/Log.antt =====
-- The printing and copying commands keep a chip well formed, and leave a well-formed command.
use chip.Prelude.{ℕ, zero, suc, ◌<◌, ◌≤◌, ◌≡◌, refl, arith, ◌==◌}
use native.Mathlib.Nat.{le_refl}
use chip.Word.{IsWord, add}
use chip.Word.Signed.{add-IsWord}
use chip.Command.{Command, IsCommand, arg0f_get}
use chip.Outcome.{Post, Post-intro, Post-ne-unfinished}
use chip.Chip.State.{Platform, Output, printed_char}
use chip.Chip.Log.{
  log_word, cmd_logi, cmd_logu, cmd_logc, cmd_logln, read_next, logs_loop, copy_next, strcpy_loop,
  rounds, cmd_logs, cmd_strcpy,
}
use chip.Chip.Valid.Defs.{
  IsSound, Keeps, Any, Keeps-pure, Keeps-bind, Keeps-lift, Keeps-case, emit-Keeps,
}
use chip.Chip.Valid.Operands.{getword-Keeps, setword-Keeps, Keeps-then}

-- A word, and the argument after it, from which fewer increments are left than from `a`.
abbrev IsNext : ℕ → ℕ × ℕ → Type 0
IsNext a r = IsWord r.0 × IsWord r.1 × (rounds r.1 < rounds a)

abbrev AreNext : ℕ → ℕ × ℕ × ℕ → Type 0
AreNext a r = IsWord r.0 × IsWord r.1 × IsWord r.2 × (rounds r.2 < rounds a)

-- The command afterwards: well formed, with other arguments at most.
abbrev pub LogsChanges : Command → Command → Type 0
LogsChanges cmd m = IsCommand m × (m ≡ record cmd { arg0 = m.arg0 })

abbrev pub StrcpyChanges : Command → Command → Type 0
StrcpyChanges cmd m = IsCommand m × (m ≡ record cmd { arg0 = m.arg0; arg1 = m.arg1 })

abbrev ArePair : ℕ × ℕ → Type 0
ArePair r = IsWord r.0 × IsWord r.1

successor : (a : ℕ) → IsWord a → Post (λ n. IsWord n × (rounds n < rounds a)) (add a 1)
unfolding add rounds
successor a h = Post-intro (add a 1) (Post-ne-unfinished (add-IsWord a 1)) (λ n e. ground arith)

rounds_pos : (a : ℕ) → IsWord a → 0 < rounds a
unfolding rounds
rounds_pos a h = ground arith

pub cmd_logln-Keeps : (p : Platform) (cmd : Command) → Keeps Any (cmd_logln p cmd)
unfolding cmd_logln
cmd_logln-Keeps p cmd = emit-Keeps (printed_char 10)

module _ (p : Platform) (sound : IsSound p) where
  module _ (type : ℕ) where
    read_next-Keeps : (a : ℕ) → IsWord a → Keeps (IsNext a) (read_next p type a)
    unfolding read_next
    read_next-Keeps a h = Keeps-bind (Keeps-lift (successor a h)) (λ next hn.
        Keeps-bind (getword-Keeps p sound type a h) (λ v hv. Keeps-pure (hv, hn.0, hn.1)))

    copy_next-Keeps :
        (a0 a1 : ℕ) → IsWord a0 → IsWord a1 → Keeps (AreNext a1) (copy_next p type a0 a1)
    unfolding copy_next
    copy_next-Keeps a0 a1 h0 h1 = Keeps-bind (read_next-Keeps a1 h1) (λ r hr.
        Keeps-bind (Keeps-lift (add-IsWord a0 1)) (λ next0 hn.
          Keeps-then (setword-Keeps type a0 r.0 hr.0) (Keeps-pure (hr.0, hn, hr.1, hr.2))))

    logs_loop-Keeps :
        (fuel a : ℕ) → IsWord a → rounds a ≤ fuel → Keeps IsWord (logs_loop p type fuel a)
    unfolding logs_loop
    logs_loop-Keeps zero a h q = absurd (omega (arith, rounds_pos a h))
    logs_loop-Keeps (suc fuel) a h q = Keeps-bind (read_next-Keeps a h) (λ r hr.
        Keeps-case (r.0 == 0) (Keeps-pure hr.1) (
          Keeps-then (emit-Keeps (printed_char r.0))
            (logs_loop-Keeps fuel r.1 hr.1 (omega (arith, hr.2)))))

    strcpy_loop-Keeps :
        (fuel a0 a1 : ℕ)
        → IsWord a0
        → IsWord a1
        → rounds a1 ≤ fuel
        → Keeps ArePair (strcpy_loop p type fuel a0 a1)
    unfolding strcpy_loop
    strcpy_loop-Keeps zero a0 a1 h0 h1 q = absurd (omega (arith, rounds_pos a1 h1))
    strcpy_loop-Keeps (suc fuel) a0 a1 h0 h1 q = Keeps-bind (copy_next-Keeps a0 a1 h0 h1) (λ r hr.
        Keeps-case (r.0 == 0) (Keeps-pure (hr.1, hr.2))
          (strcpy_loop-Keeps fuel r.1 r.2 hr.1 hr.2 (omega (arith, hr.3))))

  module _ (cmd : Command) (valid : IsCommand cmd) where
    log_word-Keeps : (format : ℕ → Output) → Keeps Any (log_word format p cmd)
    unfolding log_word
    log_word-Keeps format =
        Keeps-bind (getword-Keeps p sound (arg0f_get cmd.flags) cmd.arg0 valid.arg0_word)
          (λ v _. emit-Keeps (format v))

    pub cmd_logi-Keeps : Keeps Any (cmd_logi p cmd)
    unfolding cmd_logi
    cmd_logi-Keeps = log_word-Keeps _

    pub cmd_logu-Keeps : Keeps Any (cmd_logu p cmd)
    unfolding cmd_logu
    cmd_logu-Keeps = log_word-Keeps _

    pub cmd_logc-Keeps : Keeps Any (cmd_logc p cmd)
    unfolding cmd_logc
    cmd_logc-Keeps = log_word-Keeps _

    pub cmd_logs-Keeps : Keeps (LogsChanges cmd) (cmd_logs p cmd)
    unfolding cmd_logs
    cmd_logs-Keeps =
        Keeps-bind
          (logs_loop-Keeps (arg0f_get cmd.flags) (rounds cmd.arg0) cmd.arg0 valid.arg0_word
            (le_refl _))
          (λ a h. Keeps-pure (
            record {
              flags_byte = valid.flags_byte;
              code_byte = valid.code_byte;
              arg0_word = h;
              arg1_word = valid.arg1_word;
            },
            refl,
          ))

    pub cmd_strcpy-Keeps : Keeps (StrcpyChanges cmd) (cmd_strcpy p cmd)
    unfolding cmd_strcpy
    cmd_strcpy-Keeps =
        Keeps-bind
          (strcpy_loop-Keeps (arg0f_get cmd.flags) (rounds cmd.arg1) cmd.arg0 cmd.arg1
            valid.arg0_word valid.arg1_word (le_refl _))
          (λ a h. Keeps-pure (
            record {
              flags_byte = valid.flags_byte;
              code_byte = valid.code_byte;
              arg0_word = h.0;
              arg1_word = h.1;
            },
            refl,
          ))
