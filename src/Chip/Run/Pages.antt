-- ===== src/Chip/Run/Pages.antt =====
-- What a round does with the pages: inside the first one, and behind it.
use native.Mathlib.Nat.{div-eq_of_lt, mod-eq_of_lt}
use chip.Prelude.{
  ℕ, zero, suc, ◌<◌, ◌≤◌, ◌≡◌, ◌≢◌, ◌%◌, refl, ◌∙◌, arith, true, false, none, some, List, [], ◌∷◌,
  ◌++◌, ltb, leb, ◌==◌, if◌then◌else◌, get_elem?, length,
}
use chip.Word.{half_mod}
use chip.Command.{Command}
use chip.Outcome.{Outcome, done, undefined}
use chip.Outcome
use chip.Chip.State.{Chip, Platform, cell, reg_pc, reload_page}
use chip.Chip.Table.{exec}
use chip.Chip.Run.{
  running, stopped, as_size, page_of, past_end, exec_at, exec_in, reload, fetch, halted, step,
}
use chip.Chip.Cells.{load_ram-cell}
use chip.Chip.Valid.Defs.{IsValid, IsSound}

page_of_first : (pc size : ℕ) → pc < size → pc < half_mod → page_of pc size ≡ 0
unfolding page_of as_size
page_of_first pc size h k = let e : as_size pc ≡ pc = ground arith in rw (e, div-eq_of_lt h)

past_end_first : (pc size n : ℕ) → pc < size → pc < half_mod → past_end pc size n ≡ leb n pc
unfolding past_end
past_end_first pc size n h k = let e : pc % size ≡ pc = mod-eq_of_lt h in ground (arith, e)

not_past_end :
    (pc size n : ℕ) → 0 < size → pc % size < n → pc < half_mod → past_end pc size n ≡ false
unfolding past_end
not_past_end pc size n h k l = ground arith

not_halted : (c : Chip) → c.state ≡ 0 → halted c ≡ false
unfolding halted
not_halted c h = rw h

step-fetch :
    (p : Platform) (n : ℕ) (c : Chip) (pc : ℕ)
    → c.state ≡ 0
    → cell c reg_pc ≡ some pc
    → 0 < c.page_size
    → step p n c ≡ (
        if page_of pc c.page_size == c.page_current
        then exec_in p n pc c
        else reload p (page_of pc c.page_size) pc c)
unfolding step fetch
step-fetch p n c pc h e s =
    let test : (c.page_size == 0) ≡ false = ground arith in
    rw (not_halted c h, load_ram-cell c reg_pc e, test)

get_elem?_past : (l : List Command) (i : ℕ) → length l ≤ i → get_elem? l i ≡ none
get_elem?_past [] i h = refl
get_elem?_past (x ∷ l) zero h = absurd (omega arith)
get_elem?_past (x ∷ l) (suc i) h = get_elem?_past l i (omega arith)

leb-ltb : {A : Type 0} (n m : ℕ) (a b : A) → (if leb n m then a else b) ≡ (if ltb m n then b else a)
leb-ltb n m a b = ground arith

exec_at_outside :
    (p : Platform) (pc : ℕ) (c : Chip) → length c.page ≤ pc → exec_at p pc c ≡ undefined
unfolding exec_at exec
exec_at_outside p pc c h =
    let fetched : (if ltb pc half_mod then get_elem? c.page pc else none) ≡ none =
      rw (get_elem?_past c.page pc h) ground arith in
    rw (exec_at, exec, fetched)

module _ (p : Platform) (n : ℕ) (c : Chip) (pc : ℕ) where
  -- Inside the first page, a round executes the command at the program counter when the loader filled it, and
  -- leaves the loop with the chip as it is when the counter is past the commands that it filled.
  pub step_first_page :
      c.state ≡ 0
      → c.page_current ≡ 0
      → cell c reg_pc ≡ some pc
      → pc < c.page_size
      → pc < half_mod
      → step p n c ≡ (
          if ltb pc n
          then (Outcome.◌>>=◌ (exec_at p pc c) (λ r. done (running n r.1)))
          else done (stopped c))
  unfolding exec_in
  step_first_page runs first at_pc inside small =
      let test : (page_of pc c.page_size == c.page_current) ≡ true =
        rw (page_of_first pc c.page_size inside small) ground arith in
      step-fetch p n c pc runs at_pc (omega arith)
      ∙ rw (test, past_end_first pc c.page_size n inside small) (leb-ltb n pc _ _)

  -- Behind the first page, a round that the loader finds commands for reads the page outside its bounds: the
  -- program counter itself is the index.
  pub step_behind :
      (b : List Command) (k : ℕ)
      → IsSound p
      → IsValid c
      → c.state ≡ 0
      → cell c reg_pc ≡ some pc
      → 0 < c.page_size
      → c.page_size ≤ pc
      → pc < half_mod
      → page_of pc c.page_size ≢ c.page_current
      → p.load (page_of pc c.page_size) c.page ≡ some (k, b)
      → pc % c.page_size < k
      → step p n c ≡ undefined
  unfolding reload exec_in
  step_behind b k sound valid runs at_pc some_page behind small other loaded filled =
      let room : length b ≡ c.page_size =
        (sound.load_commands (page_of pc c.page_size) c.page k b valid.page_commands loaded).0
        ∙ valid.page_length in
      let test : (page_of pc c.page_size == c.page_current) ≡ false = ground arith in
      let moved : Chip = record c {
        page = b;
        page_current = page_of pc c.page_size;
        output = c.output ++ (reload_page (page_of pc c.page_size) c.page_current c.page_size ∷ []);
      } in
      let outside : exec_at p pc moved ≡ undefined =
        exec_at_outside p pc moved (omega (arith, room)) in
      step-fetch p n c pc runs at_pc some_page
      ∙ rw (
        test,
        reload,
        loaded,
        exec_in,
        not_past_end pc c.page_size k some_page filled small,
        outside,
      )
