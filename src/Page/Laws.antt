-- ===== src/Page/Laws.antt =====
-- What the program relies on of the C library's files, in terms of the bytes of a file.
use chip.Prelude.{ℕ, ◌<◌, ◌≡◌, some, List, [], ◌∷◌, ◌++◌, length, drop}
use chip.Word.{IsWord}
use chip.Page.{Stdio, Read, full, short}

-- What holds of the value of a read.
abbrev pub Reads : {A F : Type 0} → (A → Type 0) → Read A F → Type 0
Reads P (full v f) = P v
Reads P (short v f) = P v

-- `bytes` is the representation of a word in memory, `contents` is a file's bytes, and `ahead` those
-- from its position on.
pub record IsStdio {F : Type 0} (io : Stdio F) (bytes : ℕ → List ℕ) (contents ahead : F → List ℕ)
    : Type 0 where
  pub length-bytes : (w : ℕ) → length (bytes w) ≡ 4
  pub byte_written :
      (b : ℕ) (f g : F) → io.write_byte b f ≡ some g → contents g ≡ contents f ++ b ∷ []
  pub word_written :
      (w : ℕ) (f g : F) → io.write_word w f ≡ some g → contents g ≡ contents f ++ bytes w
  pub byte_read :
      (old b : ℕ) (r : List ℕ) (f : F)
      → b < 256
      → ahead f ≡ b ∷ r
      → (g : F) × (io.read_byte old f ≡ full b g) × (ahead g ≡ r)
  pub no_byte :
      (old : ℕ) (f : F) → ahead f ≡ [] → (v : ℕ) × (g : F) × (io.read_byte old f ≡ short v g)
  pub word_read :
      (old w : ℕ) (r : List ℕ) (f : F)
      → IsWord w
      → ahead f ≡ bytes w ++ r
      → (g : F) × (io.read_word old f ≡ full w g) × (ahead g ≡ r)
  pub seek_to : (n : ℕ) (f g : F) → io.seek n f ≡ some g → ahead g ≡ drop n (contents f)
  pub byte_bound : (old : ℕ) (f : F) → old < 256 → Reads (λ v. v < 256) (io.read_byte old f)
  pub word_bound : (old : ℕ) (f : F) → IsWord old → Reads IsWord (io.read_word old f)
