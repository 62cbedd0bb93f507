-- ===== src/Kern/Word.antt =====
-- Reading a word of physical memory after a write.
use arch.Base.{ℕ, ◌≡◌, ◌≢◌, arith}
use arch.Kern.{write_word}

pub write_word_self : (mem : ℕ → ℕ → ℕ) (p i v : ℕ) → write_word mem p i v p i ≡ v
write_word_self mem p i v = ground arith

pub write_word_ne : (mem : ℕ → ℕ → ℕ) (p i v q j : ℕ) → q ≢ p → write_word mem p i v q j ≡ mem q j
write_word_ne mem p i v q j ne = ground arith

pub write_word_other : (mem : ℕ → ℕ → ℕ) (p i v j : ℕ) → j ≢ i → write_word mem p i v p j ≡ mem p j
write_word_other mem p i v j ne = ground arith
