-- ===== src/Chip/Valid/Steps.antt =====
-- Whatever command a chip executes, it stays well formed, and so do the rounds of the loop.
use chip.Prelude.{
  ℕ, ◌≤◌, ◌≡◌, refl, ap, ◌∙◌, arith, Bool, true, false, Option, none, some, List, [], ◌∷◌, ◌++◌,
  ◌==◌, if◌then◌else◌, ltb, length-set, All-set, All-get_elem?, get_elem?, set, Bool-cases, inl,
  inr,
}
use chip.Word.{half_mod}
use chip.Word.Signed.{add-IsWord}
use chip.Command.{Command, IsCommand}
use chip.Outcome.{
  Outcome, Post, Post-bind, Post-map, Post-if, returns, no_value, no_end, done, undefined,
  unfinished,
}
use chip.Outcome
use chip.Chip.State.{Chip, Platform, ◌>>=◌, reg_pc, state_fail, reload_page}
use chip.Chip.Table.{commands, call_handler, store_command, exec}
use chip.Chip.Run.{
  Progress, running, stopped, inc_pc, exec_at, exec_in, reload, fetch, step, page_of, past_end,
  halted,
}
use chip.Chip.Valid.Defs.{
  IsSound, IsValid, Keeps, Any, Keeps-bind, Keeps-lift, load_ram-Keeps, store_ram-Keeps,
}
use chip.Chip.Valid.Commands.{Changes, Changes-IsCommand, call_handler-Keeps}

-- Well formed, with the page size of `c`.
abbrev IsNext : Chip → Chip → Type 0
IsNext c d = IsValid d × (d.page_size ≡ c.page_size)

-- The page with another command at most at one index, and that command as its handler may leave it.
abbrev pub InPlace : ℕ → Chip → Chip → Type 0
InPlace pc c d =
    (d.page_current ≡ c.page_current)
    × (d.page_size ≡ c.page_size)
    × ((cmd m : Command) × (get_elem? c.page pc ≡ some cmd)
        × (d.page ≡ set c.page pc m)
        × Changes (commands cmd.code) cmd m)

-- What a round leads to from `c`.
abbrev pub IsProgress : Chip → Progress → Type 0
IsProgress c (running n d) = IsValid d × (d.page_size ≡ c.page_size) × (n ≤ d.page_size)
IsProgress c (stopped d) = IsValid d × (d.page_size ≡ c.page_size)

module _ (p : Platform) (sound : IsSound p) where
  inc_pc-Keeps : Keeps Any inc_pc
  unfolding inc_pc
  inc_pc-Keeps =
      Keeps-bind (load_ram-Keeps reg_pc) (λ pc _.
        Keeps-bind (Keeps-lift (add-IsWord pc 1)) (λ next h. store_ram-Keeps reg_pc next h))

  writeback-IsValid :
      (d : Chip) (i : ℕ) (cmd : Command)
      → IsValid d
      → IsCommand cmd
      → IsValid (record d { page = set d.page i cmd })
  writeback-IsValid d i cmd v h = record {
    ram_block = v.ram_block;
    page_length = length-set d.page i cmd ∙ v.page_length;
    page_commands = All-set IsCommand d.page i v.page_commands h;
    state_known = v.state_known;
  }

  -- With a sound allocator and loader, the command at any index of the page of a well-formed chip, of any code and
  -- with any flags, ends or is undefined; so does the call for an index outside the page. When it ends, the chip
  -- is well formed, with its page number and page size, and its page is as before but at that index, where
  -- the command may have another first argument if it is `logs`, other arguments if it is `strcpy`, and is as before
  -- if it is any other.
  pub exec-IsValid :
      (pc : ℕ) (c : Chip)
      → IsValid c
      → Post (λ (r : Unit {0} × Chip). IsValid r.1 × InPlace pc c r.1) (exec p pc c)
  unfolding exec store_command
  exec-IsValid pc c v = go (if ltb pc half_mod then get_elem? c.page pc else none) refl
    where
      found :
          {cmd : Command}
          → (if ltb pc half_mod then get_elem? c.page pc else none) ≡ some cmd
          → get_elem? c.page pc ≡ some cmd
      found e = elim (Bool-cases (ltb pc half_mod)) [ inl t ↦ (rw t at e) | inr f ↦ cc (rw f at e) ]

      go :
          (o : Option Command)
          → (if ltb pc half_mod then get_elem? c.page pc else none) ≡ o
          → Post
              (λ (r : Unit {0} × Chip). IsValid r.1 × InPlace pc c r.1)
              (elim o [
                | none ↦ undefined
                | some cmd ↦
                    (call_handler (commands cmd.code) p cmd >>= λ cmd'. store_command pc cmd') c
              ])
      go none e = no_value
      go (some cmd) e =
          let valid = All-get_elem? IsCommand c.page pc v.page_commands (found e) in
          let h = commands cmd.code in
          Post-bind ((call_handler-Keeps p sound cmd valid h).post c v) (λ r k. returns (
            writeback-IsValid r.1 pc r.0 k.1 (Changes-IsCommand h cmd r.0 k.0),
            (
              k.2.current_same,
              k.2.size_same,
              (cmd, r.0, found e, ap (λ l. set l pc r.0) k.2.page_same, k.0),
            ),
          ))

  exec_at-Post :
      (pc : ℕ) (c : Chip)
      → IsValid c
      → Post (λ (r : Unit {0} × Chip). IsNext c r.1) (exec_at p pc c)
  unfolding exec_at
  exec_at-Post pc c v =
      Post-bind (exec-IsValid pc c v)
        (λ r h. Post-map (inc_pc-Keeps.post r.1 h.0) (λ s k. (k.1, k.2.size_same ∙ h.1.1)))

  exec_in-Post :
      (n pc : ℕ) (c : Chip) → IsValid c → n ≤ c.page_size → Post (IsProgress c) (exec_in p n pc c)
  unfolding exec_in
  exec_in-Post n pc c v h = go (past_end pc c.page_size n)
    where
      go :
          (b : Bool)
          → Post (IsProgress c) (
              if b
              then done (stopped c)
              else Outcome.◌>>=◌ (exec_at p pc c) (λ r. done (running n r.1)))
      go true = returns (v, refl)
      go false = Post-bind (exec_at-Post pc c v) (λ r k. returns (k.0, k.1, omega (arith, k.1)))

  reload-Post : (page pc : ℕ) (c : Chip) → IsValid c → Post (IsProgress c) (reload p page pc c)
  unfolding reload
  reload-Post page pc c v = go (p.load page c.page) refl
    where
      moved : Chip
      moved = record c {
        page_current = page;
        output = c.output ++ (reload_page page c.page_current c.page_size ∷ []);
      }

      go :
          (o : Option (ℕ × List Command))
          → p.load page c.page ≡ o
          → Post (IsProgress c) (elim o [
            | none ↦ done (stopped (record moved { state = state_fail }))
            | some (n, loaded) ↦ exec_in p n pc (record moved { page = loaded })
          ])
      go none e = returns (
        record {
          ram_block = v.ram_block;
          page_length = v.page_length;
          page_commands = v.page_commands;
          state_known = inr refl;
        },
        refl,
      )
      go (some (n, loaded)) e =
          let facts = sound.load_commands page c.page n loaded v.page_commands e in
          Post-map
            (exec_in-Post n pc (record moved { page = loaded })
              (record {
                ram_block = v.ram_block;
                page_length = facts.0 ∙ v.page_length;
                page_commands = facts.2;
                state_known = v.state_known;
              })
              (omega (arith, facts.1, v.page_length)))
            (λ q k. same_size q k)
        where
          same_size :
              (q : Progress) → IsProgress (record moved { page = loaded }) q → IsProgress c q
          same_size (running m d) k = k
          same_size (stopped d) k = k

  fetch-Post : (n : ℕ) (c : Chip) → IsValid c → n ≤ c.page_size → Post (IsProgress c) (fetch p n c)
  unfolding fetch
  fetch-Post n c v h = Post-bind ((load_ram-Keeps reg_pc).post c v) (λ r k.
      Post-if (c.page_size == 0) no_value (
        Post-if (page_of r.0 c.page_size == c.page_current) (exec_in-Post n r.0 c v h)
          (reload-Post (page_of r.0 c.page_size) r.0 c v)))

  -- With a sound allocator and loader, a round of the loop on a well-formed chip ends or is undefined. When it
  -- ends, the chip is well formed, with its page size, and no more commands are counted than the page has room for.
  pub step-IsProgress :
      (n : ℕ) (c : Chip) → IsValid c → n ≤ c.page_size → Post (IsProgress c) (step p n c)
  unfolding step
  step-IsProgress n c v h = Post-if (halted c) (returns (v, refl)) (fetch-Post n c v h)
