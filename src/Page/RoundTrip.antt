-- ===== src/Page/RoundTrip.antt =====
-- A saved program, read page by page.
use mathlib.Core.List.{append_assoc, append-nil}
use mathlib.Core.Option.{some-injective}
use chip.Prelude.{
  ℕ, zero, suc, ◌+◌, ◌-◌, ◌*◌, ◌≡◌, refl, ap, ◌∙◌, arith, Option, none, some, List, [], ◌∷◌, ◌++◌,
  All, length, length-append, length-drop, take, drop, min,
}
use chip.Command.{Command, IsCommand}
use chip.Page.{
  Stdio, full, ◌>>=◌, command_save, commands_save, command_load, fill, clear, page_load,
  command_size,
}
use chip.Page.Laws.{IsStdio}

-- A chain of calls that succeeds.
pub bind-some :
    {A B : Type 0} (o : Option A) (k : A → Option B) {b : B}
    → (o >>= k) ≡ some b
    → (a : A) × (o ≡ some a) × (k a ≡ some b)
bind-some none k e = cc
bind-some (some a) k e = (a, refl, e)

append4 :
    (xs : List ℕ) (a b : ℕ) (ys zs : List ℕ)
    → xs ++ a ∷ [] ++ b ∷ [] ++ ys ++ zs ≡ xs ++ a ∷ b ∷ (ys ++ zs)
append4 xs a b ys zs = rw (append_assoc, append_assoc, append_assoc)

drop_nil : (n : ℕ) → drop {A = ℕ} n [] ≡ []
drop_nil zero = refl
drop_nil (suc n) = refl

drop-append : (xs ys : List ℕ) (n : ℕ) → drop (length xs + n) (xs ++ ys) ≡ drop n ys
drop-append [] ys n = let e : 0 + n ≡ n = omega arith in ap (λ k. drop k ys) e
drop-append (x ∷ xs) ys n =
    let e : suc (length xs) + n ≡ suc (length xs + n) = omega arith in rw e (drop-append xs ys n)

All-drop : (n : ℕ) (cmds : List Command) → All IsCommand cmds → All IsCommand (drop n cmds)
All-drop zero cmds h = h
All-drop (suc n) [] h = h
All-drop (suc n) (cmd ∷ cmds) h = All-drop n cmds h.1

take-clear : (n : ℕ) (l : List Command) → take n (clear n l) ≡ take n l
unfolding clear
take-clear zero [] = refl
take-clear (suc n) [] = refl
take-clear zero (d ∷ ds) = refl
take-clear (suc n) (d ∷ ds) = ap (λ l. d ∷ l) (take-clear n ds)

clear-nops : (n : ℕ) (l : List Command) → All (λ (d : Command). d.code ≡ 0) (drop n (clear n l))
unfolding clear
clear-nops zero [] = tt
clear-nops (suc n) [] = tt
clear-nops zero (d ∷ ds) = (refl, clear-nops zero ds)
clear-nops (suc n) (d ∷ ds) = clear-nops n ds

module _ {F : Type 0} (io : Stdio F) (bytes : ℕ → List ℕ) (contents ahead : F → List ℕ)
    (laws : IsStdio io bytes contents ahead) where
  -- The bytes of a command, and of a program.
  abbrev pub command_bytes : Command → List ℕ
  command_bytes cmd = cmd.flags ∷ cmd.code ∷ (bytes cmd.arg0 ++ bytes cmd.arg1)

  abbrev pub program_bytes : List Command → List ℕ
  program_bytes [] = []
  program_bytes (cmd ∷ cmds) = command_bytes cmd ++ program_bytes cmds

  command_save-contents :
      (cmd : Command) (f g : F)
      → command_save io cmd f ≡ some g
      → contents g ≡ contents f ++ command_bytes cmd
  unfolding command_save
  command_save-contents cmd f g e =
      let (f1, e1, k1) = bind-some (io.write_byte cmd.flags f) _ e in
      let (f2, e2, k2) = bind-some (io.write_byte cmd.code f1) _ k1 in
      let (f3, e3, k3) = bind-some (io.write_word cmd.arg0 f2) _ k2 in
      rw
        (
          laws.word_written cmd.arg1 f3 g k3,
          laws.word_written cmd.arg0 f2 f3 e3,
          laws.byte_written cmd.code f1 f2 e2,
          laws.byte_written cmd.flags f f1 e1,
        )
        (append4 (contents f) cmd.flags cmd.code (bytes cmd.arg0) (bytes cmd.arg1))

  command_load-ahead :
      (old cmd : Command) (r : List ℕ) (f : F)
      → IsCommand cmd
      → ahead f ≡ command_bytes cmd ++ r
      → (g : F) × (command_load io old f ≡ full cmd g) × (ahead g ≡ r)
  unfolding command_load
  command_load-ahead old cmd r f h e =
      let (f1, e1, a1) = laws.byte_read old.flags cmd.flags _ f h.flags_byte e in
      let (f2, e2, a2) = laws.byte_read old.code cmd.code _ f1 h.code_byte a1 in
      let (f3, e3, a3) =
        laws.word_read old.arg0 cmd.arg0 (bytes cmd.arg1 ++ r) f2 h.arg0_word
          (a2 ∙ append_assoc (bytes cmd.arg0) (bytes cmd.arg1) r) in
      let (f4, e4, a4) = laws.word_read old.arg1 cmd.arg1 r f3 h.arg1_word a3 in
      (f4, rw (command_load, e1, e2, e3, e4), a4)

  -- Saving appends the bytes of the commands, in order.
  pub commands_save-contents :
      (cmds : List Command) (f g : F)
      → commands_save io cmds f ≡ some g
      → contents g ≡ contents f ++ program_bytes cmds
  unfolding commands_save
  commands_save-contents [] f g e = (rw (append-nil, some-injective f g e))
  commands_save-contents (cmd ∷ cmds) f g e =
      let (f1, e1, k1) = bind-some (command_save io cmd f) _ e in
      rw (commands_save-contents cmds f1 g k1, command_save-contents cmd f f1 e1)
        (append_assoc (contents f) (command_bytes cmd) (program_bytes cmds))

  length-command_bytes : (cmd : Command) → length (command_bytes cmd) ≡ command_size
  length-command_bytes cmd = omega (
    arith,
    length-append (bytes cmd.arg0) (bytes cmd.arg1),
    laws.length-bytes cmd.arg0,
    laws.length-bytes cmd.arg1,
  )

  drop-program_bytes :
      (n : ℕ) (cmds : List Command)
      → drop (n * command_size) (program_bytes cmds) ≡ program_bytes (drop n cmds)
  drop-program_bytes zero cmds = refl
  drop-program_bytes (suc n) [] = drop_nil (suc n * command_size)
  drop-program_bytes (suc n) (cmd ∷ cmds) =
      let e : suc n * command_size ≡ length (command_bytes cmd) + n * command_size =
        omega (arith, length-command_bytes cmd) in
      rw e (
        drop-append (command_bytes cmd) (program_bytes cmds) (n * command_size)
        ∙ drop-program_bytes n cmds)

  -- Reading a page: as many commands as are ahead, and as the page holds.
  fill-ahead :
      (cmds page : List Command) (f : F)
      → All IsCommand cmds
      → ahead f ≡ program_bytes cmds
      → ((fill io page f).0 ≡ min (length page) (length cmds))
        × (take ((fill io page f).0) ((fill io page f).1) ≡ take ((fill io page f).0) cmds)
  unfolding fill
  fill-ahead cmds [] f h e = (omega arith, refl)
  fill-ahead [] (d ∷ ds) f h e =
      let (v, g, read) = laws.no_byte d.flags f e in
      rw (fill, command_load, read) (omega arith, refl)
  fill-ahead (cmd ∷ cmds) (d ∷ ds) f h e =
      let (g, read, rest) = command_load-ahead d cmd (program_bytes cmds) f h.0 e in
      let ih = fill-ahead cmds ds g h.1 rest in
      rw (fill, read) (omega (arith, ih.0), ap (λ l. cmd ∷ l) ih.1)

  -- A program that is saved to an empty file and read again: the page at the address `addr` then holds the
  -- program's commands from `addr` on, as many as there are and as it has room for, which is the count
  -- returned, and all its other entries are commands with the code of `nop`.
  pub page_load-commands_save :
      (cmds page : List Command) (addr : ℕ) (f g h k : F)
      → All IsCommand cmds
      → contents f ≡ []
      → commands_save io cmds f ≡ some g
      → contents h ≡ contents g
      → io.seek (addr * command_size) h ≡ some k
      → (n : ℕ) × (page' : List Command) × (e : F) × (page_load io addr page h ≡ some (n, page', e))
        × (n ≡ min (length page) (length cmds - addr))
        × (take n page' ≡ take n (drop addr cmds))
        × All (λ (d : Command). d.code ≡ 0) (drop n page')
  unfolding page_load fill clear
  page_load-commands_save cmds page addr f g h k valid empty saved reopened sought =
      let there : ahead k ≡ program_bytes (drop addr cmds) =
        laws.seek_to (addr * command_size) h k sought
        ∙ ap (drop (addr * command_size)) (
            reopened
            ∙ commands_save-contents cmds f g saved
            ∙ ap (λ l. l ++ program_bytes cmds) empty)
        ∙ drop-program_bytes addr cmds in
      let r = fill io page k in
      let read = fill-ahead (drop addr cmds) page k (All-drop addr cmds valid) there in
      (
        r.0,
        clear r.0 r.1,
        r.2,
        rw (page_load, sought),
        omega (arith, read.0, length-drop addr cmds),
        take-clear r.0 r.1 ∙ read.1,
        clear-nops r.0 r.1,
      )
