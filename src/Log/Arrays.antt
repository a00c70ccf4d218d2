-- ===== src/Log/Arrays.antt =====
-- Texts and bytes that are stored in an array leave its length and its first cell.
use ri_mms_linux.Prelude.{ℕ, zero, suc, ◌+◌, ◌<◌, ◌≡◌, refl, ◌∙◌, arith}
use ri_mms_linux.Prelude.{List, [], ◌∷◌}
use ri_mms_linux.Prelude.{length, set, length-set}
use ri_mms_linux.Log.Tags.{store_text, store_bytes}

-- How many bytes follow a tag code.

pub length-store_text :
    (cells : List ℕ) (at : ℕ) (cs : List ℕ) → length (store_text cells at cs) ≡ length cells
length-store_text cells at [] = length-set cells at 0
length-store_text cells at (c ∷ cs) =
    length-store_text (set cells at c) (at + 1) cs ∙ length-set cells at c

-- Writes behind the first cell keep it.
unfoldable pub head_of : List ℕ → ℕ
head_of [] = 0
head_of (x ∷ xs) = x

pub head-set : (cells : List ℕ) (at v : ℕ) → 0 < at → head_of (set cells at v) ≡ head_of cells
unfolding head_of
head-set [] at v h = refl
head-set (x ∷ xs) zero v h = absurd (omega arith)
head-set (x ∷ xs) (suc at) v h = refl

pub head-store_text :
    (cells : List ℕ) (at : ℕ) (cs : List ℕ)
    → 0 < at
    → head_of (store_text cells at cs) ≡ head_of cells
head-store_text cells at [] h = head-set cells at 0 h
head-store_text cells at (c ∷ cs) h =
    head-store_text (set cells at c) (at + 1) cs (omega arith) ∙ head-set cells at c h

length-store_bytes :
    (cells : List ℕ) (at : ℕ) (cs : List ℕ) → length (store_bytes cells at cs) ≡ length cells
length-store_bytes cells at [] = refl
length-store_bytes cells at (c ∷ cs) =
    length-store_bytes (set cells at c) (at + 1) cs ∙ length-set cells at c

pub head-store_bytes :
    (cells : List ℕ) (at : ℕ) (cs : List ℕ)
    → 0 < at
    → head_of (store_bytes cells at cs) ≡ head_of cells
head-store_bytes cells at [] h = refl
head-store_bytes cells at (c ∷ cs) h =
    head-store_bytes (set cells at c) (at + 1) cs (omega arith) ∙ head-set cells at c h

pub head_written : (cells : List ℕ) (v : ℕ) → 0 < length cells → head_of (set cells 0 v) ≡ v
unfolding head_of
head_written [] v h = absurd (omega arith)
head_written (x ∷ xs) v h = refl
