-- ===== src/Chip/Valid/Defs.antt =====
-- The invariant of a chip, what the machine relies on of the allocator and the loader, and the
-- computations that keep the invariant and the page.
use mathlib.Core.Option
use chip.Prelude.{
  ℕ, ◌≤◌, ◌≡◌, refl, ◌∙◌, ◌⊎◌, inl, inr, Bool, true, false, Option, none, some, List, length,
  length-set, All, All-get_elem?, All-set, ltb, if◌then◌else◌, Bool-cases, set,
}
use chip.Word.{IsWord, half_mod}
use chip.Command.{Command, IsCommand}
use chip.Outcome.{Outcome, done, undefined, Post, returns, no_value, Post-bind, Post-map}
use chip.Chip.State.{
  Chip, Platform, M, pure, ◌>>=◌, lift, cell, cell_of, write, load_ram, store_ram, fail, emit,
  Output, state_fail,
}

-- The ram is null, or a block of `ramsize` words.
abbrev pub IsRam : Option (List ℕ) → ℕ → Type 0
IsRam none size = Unit {0}
IsRam (some m) size = (length m ≡ size) × All IsWord m

pub record IsValid (c : Chip) : Type 0 where
  pub ram_block : IsRam c.ram c.ramsize
  pub page_length : length c.page ≡ c.page_size
  pub page_commands : All IsCommand c.page
  pub state_known : (c.state ≡ 0) ⊎ (c.state ≡ state_fail)

-- `malloc` gives blocks of the size that was asked for; the loader fills its buffer with bytes and
-- words, and reports no more commands than it has room for.
pub record IsSound (p : Platform) : Type 0 where
  pub alloc_block : (n : ℕ) (m : List ℕ) → p.alloc n ≡ some m → (length m ≡ n) × All IsWord m
  pub alloc_commands :
      (n : ℕ) (b : List Command) → p.alloc_page n ≡ some b → (length b ≡ n) × All IsCommand b
  pub load_commands :
      (a : ℕ) (b : List Command) (n : ℕ) (b' : List Command)
      → All IsCommand b
      → p.load a b ≡ some (n, b')
      → (length b' ≡ length b) × (n ≤ length b) × All IsCommand b'
  pub junk_command : IsCommand p.junk

-- What a command leaves alone.
pub record Frame (c d : Chip) : Type 0 where
  pub page_same : d.page ≡ c.page
  pub current_same : d.page_current ≡ c.page_current
  pub size_same : d.page_size ≡ c.page_size

pub Frame-refl : (c : Chip) → Frame c c
Frame-refl c = record { page_same = refl; current_same = refl; size_same = refl }

pub Frame-trans : (c d e : Chip) → Frame c d → Frame d e → Frame c e
Frame-trans c d e f g = record {
  page_same = g.page_same ∙ f.page_same;
  current_same = g.current_same ∙ f.current_same;
  size_same = g.size_same ∙ f.size_same;
}

-- A computation keeps the invariant and the page, and its value has the property `Q`.
pub record Keeps {A : Type 0} (Q : A → Type 0) (m : M A) : Type 0 where
  pub post :
      (c : Chip) → IsValid c → Post (λ (r : A × Chip). Q r.0 × IsValid r.1 × Frame c r.1) (m c)

-- For a command, whose value says nothing.
abbrev pub Any : {A : Type 0} → A → Type 0
Any _ = Unit {0}

pub Keeps-pure : {A : Type 0} {Q : A → Type 0} {a : A} → Q a → Keeps Q (pure a)
Keeps-pure h = record { post = λ c v. returns (h, v, Frame-refl c) }

pub Keeps-bind :
    {A B : Type 0} {Q : A → Type 0} {R : B → Type 0} {m : M A} {f : A → M B}
    → Keeps Q m
    → ((a : A) → Q a → Keeps R (f a))
    → Keeps R (m >>= f)
Keeps-bind h k = record {
  post = λ c v. Post-bind (h.post c v) (λ r q.
      Post-map ((k r.0 q.0).post r.1 q.1) (λ s u. (u.0, u.1, Frame-trans c r.1 s.1 q.2 u.2)));
}

pub Keeps-lift : {A : Type 0} {Q : A → Type 0} {o : Outcome A} → Post Q o → Keeps Q (lift o)
Keeps-lift h = record { post = λ c v. Post-bind h (λ a q. returns (q, v, Frame-refl c)) }

pub Keeps-undefined : {A : Type 0} {Q : A → Type 0} → Keeps Q (λ _. undefined)
Keeps-undefined = record { post = λ c v. no_value }

pub Keeps-if :
    {A : Type 0} {Q : A → Type 0} (b : Bool) {m n : M A}
    → Keeps Q m
    → Keeps Q n
    → Keeps Q (if b then m else n)
Keeps-if true h k = h
Keeps-if false h k = k

-- The same for a choice by `elim`, as the loops make it.
pub Keeps-case :
    {A : Type 0} {Q : A → Type 0} (b : Bool) {m n : M A}
    → Keeps Q m
    → Keeps Q n
    → Keeps Q (elim b [ true ↦ m | false ↦ n ])
Keeps-case true h k = h
Keeps-case false h k = k

cell-IsWord :
    (m : Option (List ℕ)) (size r : ℕ) {v : ℕ} → IsRam m size → cell_of m r ≡ some v → IsWord v
cell-IsWord none size r h e = cc
cell-IsWord (some m) size r h e = elim (Bool-cases (ltb r half_mod)) [
  | inl t ↦ All-get_elem? IsWord m r h.1 (rw t at e)
  | inr f ↦ cc (rw f at e)
]

pub load_ram-Keeps : (r : ℕ) → Keeps IsWord (load_ram r)
unfolding load_ram
load_ram-Keeps r = record { post = λ c v. go c v (cell c r) refl }
  where
    go :
        (c : Chip) (v : IsValid c) (o : Option ℕ)
        → cell c r ≡ o
        → Post
            (λ (x : ℕ × Chip). IsWord x.0 × IsValid x.1 × Frame c x.1)
            (elim o [ none ↦ undefined | some w ↦ done (w, c) ])
    go c v none e = no_value
    go c v (some w) e = returns (cell-IsWord c.ram c.ramsize r v.ram_block e, v, Frame-refl c)

IsRam-set :
    (m : Option (List ℕ)) (size r v : ℕ)
    → IsRam m size
    → IsWord v
    → IsRam (Option.map (λ l. set l r v) m) size
IsRam-set none size r v h w = tt
IsRam-set (some m) size r v h w = (length-set m r v ∙ h.0, All-set IsWord m r h.1 w)

write-IsValid : (c : Chip) (r v : ℕ) → IsValid c → IsWord v → IsValid (write c r v)
unfolding write
write-IsValid c r v h w = record {
  ram_block = IsRam-set c.ram c.ramsize r v h.ram_block w;
  page_length = h.page_length;
  page_commands = h.page_commands;
  state_known = h.state_known;
}

write-Frame : (c : Chip) (r v : ℕ) → Frame c (write c r v)
unfolding write
write-Frame c r v = record { page_same = refl; current_same = refl; size_same = refl }

pub store_ram-Keeps : (r v : ℕ) → IsWord v → Keeps Any (store_ram r v)
unfolding store_ram
store_ram-Keeps r w h = record { post = λ c v. go c v (cell c r) }
  where
    go :
        (c : Chip) (v : IsValid c) (o : Option ℕ)
        → Post
            (λ (x : Unit {0} × Chip). Any x.0 × IsValid x.1 × Frame c x.1)
            (elim o [ none ↦ undefined | some _ ↦ done (tt, write c r w) ])
    go c v none = no_value
    go c v (some _) = returns (tt, write-IsValid c r w v h, write-Frame c r w)

pub fail-Keeps : Keeps Any fail
unfolding fail
fail-Keeps = record {
  post = λ c v. returns (
    tt,
    record {
      ram_block = v.ram_block;
      page_length = v.page_length;
      page_commands = v.page_commands;
      state_known = inr refl;
    },
    record { page_same = refl; current_same = refl; size_same = refl },
  );
}

pub emit-Keeps : (o : Output) → Keeps Any (emit o)
unfolding emit
emit-Keeps o = record {
  post = λ c v. returns (
    tt,
    record {
      ram_block = v.ram_block;
      page_length = v.page_length;
      page_commands = v.page_commands;
      state_known = v.state_known;
    },
    record { page_same = refl; current_same = refl; size_same = refl },
  );
}
