-- ===== src/Page/Bounds.antt =====
-- `page_load` as the loader of the machine: it keeps to the page and to the ranges of the fields.
use mathlib.Core.Path.{subst}
use mathlib.Core.Option.{some-injective}
use chip.Prelude.{
  ℕ, zero, suc, ◌*◌, ◌<◌, ◌≤◌, ◌≡◌, refl, ap, ◌∙◌, arith, Option, none, some, List, [], ◌∷◌, All,
  length,
}
use chip.Word.{IsWord}
use chip.Command.{Command, IsCommand}
use chip.Page.{Stdio, Read, full, short, command_load, fill, clear, page_load, command_size}
use chip.Page.RoundTrip.{bind-some}
use chip.Chip.State.{Platform}
use chip.Chip.Valid.Defs.{IsSound}
use chip.Page.Laws.{IsStdio, Reads}

is_command :
    {n m a b : ℕ}
    → n < 256
    → m < 256
    → IsWord a
    → IsWord b
    → IsCommand (record { flags = n; code = m; arg0 = a; arg1 = b })
is_command x y z w = record { flags_byte = x; code_byte = y; arg0_word = z; arg1_word = w }

Reads-case :
    {A B F : Type 0} {P : A → Type 0} (Q : B → Type 0) (r : Read A F) (s t : A → F → Read B F)
    → Reads P r
    → ((v : A) (g : F) → P v → Reads Q (s v g))
    → ((v : A) (g : F) → P v → Reads Q (t v g))
    → Reads Q (elim r [ short v g ↦ s v g | full v g ↦ t v g ])
Reads-case Q (full v g) s t h p q = q v g h
Reads-case Q (short v g) s t h p q = p v g h

clear_bounds :
    (n : ℕ) (l : List Command)
    → All IsCommand l
    → (length (clear n l) ≡ length l) × All IsCommand (clear n l)
unfolding clear
clear_bounds zero [] h = (refl, h)
clear_bounds (suc n) [] h = (refl, h)
clear_bounds zero (d ∷ ds) h =
    let rest = clear_bounds zero ds h.1 in
    (ap suc rest.0, (is_command h.0.flags_byte (omega arith) h.0.arg0_word h.0.arg1_word, rest.1))
clear_bounds (suc n) (d ∷ ds) h = let rest = clear_bounds n ds h.1 in (ap suc rest.0, (h.0, rest.1))

module _ {F : Type 0} (io : Stdio F) (bytes : ℕ → List ℕ) (contents ahead : F → List ℕ)
    (laws : IsStdio io bytes contents ahead) where
  command_load-IsCommand :
      (d : Command) (f : F) → IsCommand d → Reads IsCommand (command_load io d f)
  unfolding command_load
  command_load-IsCommand d f h =
      Reads-case IsCommand (io.read_byte d.flags f) _ _ (laws.byte_bound d.flags f h.flags_byte)
        (λ v g x. is_command x h.code_byte h.arg0_word h.arg1_word)
        (λ v g x.
          Reads-case IsCommand (io.read_byte d.code g) _ _ (laws.byte_bound d.code g h.code_byte)
            (λ w k y. is_command x y h.arg0_word h.arg1_word)
            (λ w k y.
              Reads-case IsCommand (io.read_word d.arg0 k) _ _
                (laws.word_bound d.arg0 k h.arg0_word) (λ a l z. is_command x y z h.arg1_word)
                (λ a l z.
                  Reads-case IsCommand (io.read_word d.arg1 l) _ _
                    (laws.word_bound d.arg1 l h.arg1_word) (λ b m u. is_command x y z u)
                    (λ b m u. is_command x y z u))))

  abbrev pub Filled : List Command → ℕ × List Command × F → Type 0
  Filled page r = (length r.1 ≡ length page) × (r.0 ≤ length page) × All IsCommand r.1

  fill_bounds : (page : List Command) (f : F) → All IsCommand page → Filled page (fill io page f)
  unfolding fill
  fill_bounds [] f h = (refl, omega arith, tt)
  fill_bounds (d ∷ ds) f h =
      after (command_load io d f) (command_load-IsCommand d f h.0) (λ f1. fill_bounds ds f1 h.1)
    where
      after :
          (r : Read Command F)
          → Reads IsCommand r
          → ((f1 : F) → Filled ds (fill io ds f1))
          → Filled (d ∷ ds) (elim r [
            | short d' f1 ↦ (0, d' ∷ ds, f1)
            | full d' f1 ↦ (let rest = fill io ds f1 in (suc rest.0, d' ∷ rest.1, rest.2))
          ])
      after (short d' f1) k ih = (refl, omega arith, (k, h.1))
      after (full d' f1) k ih =
          let rest = ih f1 in (ap suc rest.0, omega (arith, rest.1), (k, rest.2))

  -- The page of the result has the length of the page given, no more commands are counted than it holds,
  -- and all its entries are commands, whatever the file holds and wherever a read stops.
  pub page_load_bounds :
      (addr n : ℕ) (page page' : List Command) (f g : F)
      → All IsCommand page
      → page_load io addr page f ≡ some (n, page', g)
      → (length page' ≡ length page) × (n ≤ length page) × All IsCommand page'
  unfolding page_load
  page_load_bounds addr n page page' f g h e =
      let (f1, e1, k1) = bind-some (io.seek (addr * command_size) f) _ e in
      let filled = fill_bounds page f1 h in
      let cleared = clear_bounds ((fill io page f1).0) ((fill io page f1).1) filled.2 in
      subst (Filled page) (some-injective _ _ k1) (cleared.0 ∙ filled.0, filled.1, cleared.1)

  -- What the machine takes of a load: the number of commands and the page.
  abbrev loaded : Option (ℕ × List Command × F) → Option (ℕ × List Command)
  loaded none = none
  loaded (some r) = some (r.0, r.1)

  -- A machine whose loader is `page_load` on a file.
  abbrev pub with_file : Platform → F → Platform
  with_file p f = record p { load = λ addr page. loaded (page_load io addr page f) }

  -- With `page_load` on a file as its loader, a machine with a sound allocator is sound.
  pub with_file-IsSound : (p : Platform) (f : F) → IsSound p → IsSound (with_file p f)
  with_file-IsSound p f sound = record {
    alloc_block = sound.alloc_block;
    alloc_commands = sound.alloc_commands;
    load_commands = λ a b n b' h e. keeps a b n b' h (page_load io a b f) refl e;
    junk_command = sound.junk_command;
  }
    where
      keeps :
          (a : ℕ) (b : List Command) (n : ℕ) (b' : List Command)
          → All IsCommand b
          → (o : Option (ℕ × List Command × F)) → page_load io a b f ≡ o
          → loaded o ≡ some (n, b')
          → (length b' ≡ length b) × (n ≤ length b) × All IsCommand b'
      keeps a b n b' h none e k = cc
      keeps a b n b' h (some (m, l, g)) e k =
          subst {A = ℕ × List Command}
            (λ r. (length r.1 ≡ length b) × (r.0 ≤ length b) × All IsCommand r.1)
            (some-injective _ _ k) (page_load_bounds a m b l f g h e)
