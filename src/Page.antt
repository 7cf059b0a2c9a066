-- ===== src/Page.antt =====
-- The file of a program: `chip32_commands_save` and `chip32_command_load` of core/c32asm.c, and
-- `page_load` of core/main.c, which reads a page of it for the machine.
pub mod Laws
pub mod RoundTrip
pub mod Bounds
use chip.Prelude.{ℕ, zero, suc, ◌*◌, Bool, true, false, Option, none, some, List, [], ◌∷◌}
use chip.Command.{Command}

infixl 5 ◌>>=◌
-- The early return of a call that fails.
abbrev pub ◌>>=◌ : {A B : Type 0} → Option A → (A → Option B) → Option B
none >>= k = none
some a >>= k = k a

-- What a read of a value leaves: the value and the file afterwards. After `short` the read did not
-- return 1, and the value is whatever it left.
pub data Read (A F : Type 0) : Type 0 where
  full short : A → F → Read A F

-- The calls of the C library on a `FILE` of type `F`. A write gives the file afterwards, or `none` if it
-- does not return 1; a read is given the value of the object before.
pub record Stdio (F : Type 0) : Type 0 where
  pub write_byte : ℕ → F → Option F
  pub write_word : ℕ → F → Option F
  pub read_byte : ℕ → F → Read ℕ F
  pub read_word : ℕ → F → Read ℕ F
  pub seek : ℕ → F → Option F

-- `sizeof(chip32Command_s)`, which is packed.
abbrev pub command_size : ℕ
command_size = 10

-- The second loop of `page_load`, from the index `n` on.
unfoldable pub clear : ℕ → List Command → List Command
clear n [] = []
clear zero (d ∷ ds) = record d { code = 0 } ∷ clear zero ds
clear (suc n) (d ∷ ds) = d ∷ clear n ds

module _ {F : Type 0} (io : Stdio F) where
  -- The body of the loop of `chip32_commands_save`.
  unfoldable pub command_save : Command → F → Option F
  command_save cmd f = do
    f1 ← io.write_byte cmd.flags f
    f2 ← io.write_byte cmd.code f1
    f3 ← io.write_word cmd.arg0 f2
    io.write_word cmd.arg1 f3

  -- `none` is the result -1.
  unfoldable pub commands_save : List Command → F → Option F
  unfolding command_save
  commands_save [] f = some f
  commands_save (cmd ∷ cmds) f = do f1 ← command_save cmd f; commands_save cmds f1

  -- `full` is the result 0 and `short` the result -1, with the command as they leave it.
  unfoldable pub command_load : Command → F → Read Command F
  command_load cmd f = elim (io.read_byte cmd.flags f) [
    | short v f1 ↦ short (record cmd { flags = v }) f1
    | full flags f1 ↦ elim (io.read_byte cmd.code f1) [
      | short v f2 ↦ short (record cmd { flags = flags; code = v }) f2
      | full code f2 ↦ elim (io.read_word cmd.arg0 f2) [
        | short v f3 ↦ short (record cmd { flags = flags; code = code; arg0 = v }) f3
        | full arg0 f3 ↦ elim (io.read_word cmd.arg1 f3) [
          | short v f4 ↦ short (record { flags = flags; code = code; arg0 = arg0; arg1 = v }) f4
          | full arg1 f4 ↦ full (record { flags = flags; code = code; arg0 = arg0; arg1 = arg1 }) f4
        ]
      ]
    ]
  ]

  -- The first loop of `page_load`, over the entries of the page: the number of commands read, the page, and
  -- the file.
  unfoldable pub fill : List Command → F → ℕ × List Command × F
  unfolding command_load
  fill [] f = (0, [], f)
  fill (d ∷ ds) f = elim (command_load d f) [
    | short d' f1 ↦ (0, d' ∷ ds, f1)
    | full d' f1 ↦ (let rest = fill ds f1 in (suc rest.0, d' ∷ rest.1, rest.2))
  ]

  -- `none` is the end of the process, by `die`.
  unfoldable pub page_load : ℕ → List Command → F → Option (ℕ × List Command × F)
  unfolding fill clear
  page_load addr page f = do
    f1 ← io.seek (addr * command_size) f
    let r = fill page f1
    some (r.0, clear r.0 r.1, r.2)
