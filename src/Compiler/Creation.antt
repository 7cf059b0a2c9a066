-- ===== src/Compiler/Creation.antt =====
-- `chip32_compiler_new` makes a compiler that knows the commands.
use chip.Prelude.{ℕ, ◌<◌, ◌≡◌, refl, ap, arith, Bool, true, false, none, some, List, [], length}
use chip.Hash.{hash_fasthash}
use chip.HashTable.{Element, HashTable, find}
use chip.HashTable.Grow.{Memory, new, clear, spare}
use chip.HashTable.Calls.{Ends, ends, Ends-bind, done}
use chip.HashTable.Resize.{IsWide}
use chip.HashTable.Mapping.{IsMap}
use chip.HashTable.Fresh.{Empty, new-IsMap}
use chip.Parser.{Declared}
use chip.Parser.Commands.{Action, actions}
use chip.Parser.Naming.{named, parser_init-named}
use chip.Compiler.{Compiler, Blocks, compiler_new, rbh_size, rbh_min, rbh_key}

-- The table that `rbhash_new` makes with the compiler's sizes.
abbrev made : {D : Type 0} → (ℕ → Element D) → Bool → ℕ → HashTable D
made f del dnswap = record {
  table = clear f 0 4096;
  size = 4096;
  element_size = 96;
  count = 0;
  min = rbh_min;
  max_distance = 0;
  key_size = rbh_key;
  del = del;
  hashing = hash_fasthash;
  dnswap = dnswap;
}

new-made :
    {D : Type 0} (memory : Memory D) (f : ℕ → Element D) (del : Bool) (dnswap : ℕ)
    → memory.elements 4096 ≡ some f
    → new memory rbh_size rbh_min rbh_key hash_fasthash del dnswap ≡ some (made f del dnswap)
unfolding new
new-made memory f del dnswap e =
    ap (λ o. elim o [ none ↦ none | some h ↦ some (made h del dnswap) ]) e

-- Where every allocation of `chip32_compiler_new` succeeds and a new element holds the key that it is
-- allocated for, it ends with a compiler: it has no lines, no commands, no code and no error, the line 1 and the
-- first free address 35; in its table of actions `rbhash_find` gives each of the 36 names its action and every
-- other key NULL, and its table of declarations is an empty map.
pub compiler_new-named :
    (blocks : Blocks) (ma : Memory Action) (md : Memory Declared) (dnswap : ℕ) (m : Element Action)
    (f : ℕ → Element Action) (g : ℕ → Element Declared)
    → blocks.object ≡ true
    → blocks.vcmd ≡ true
    → blocks.mc ≡ true
    → ma.element ≡ some m
    → ma.elements 4096 ≡ some f
    → md.elements 4096 ≡ some g
    → IsWide 76 ma
    → IsWide 76 md
    → Ends
        (λ o.
          (c : Compiler) × (o ≡ some c)
          × (c.vcmd ≡ [])
          × (c.mc ≡ [])
          × (c.code ≡ none)
          × (c.error ≡ none)
          × (c.line ≡ 1)
          × (c.avaddr ≡ 35)
          × IsMap c.actions
          × ((k : List ℕ) → 0 < length k → find c.actions k ≡ done (named actions k none))
          × Empty 4096 c.declare)
        (compiler_new blocks ma md dnswap)
unfolding compiler_new
compiler_new-named blocks ma md dnswap m f g object vcmd mc element acts decs wide wide_d =
    let ta = new-made ma f false dnswap acts in
    let td = new-made md g true dnswap decs in
    let ea =
      new-IsMap ma 4096 rbh_min rbh_key hash_fasthash false dnswap (made f false dnswap)
        (omega arith) (omega arith) (omega arith) ta wide in
    let ed =
      new-IsMap md 4096 rbh_min rbh_key hash_fasthash true dnswap (made g true dnswap) (omega arith)
        (omega arith) (omega arith) td wide_d in
    rw (object, vcmd, mc, ta, td)
      (Ends-bind
        (unfold spare in
          parser_init-named ma m (made f false dnswap) element wide ea.0 ea.3 (omega arith)
            (λ n. omega arith) (omega arith))
        (λ t h. ends (_, refl, refl, refl, refl, refl, refl, refl, h.0, h.1, ed)))
