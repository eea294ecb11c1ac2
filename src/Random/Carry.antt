-- ===== src/Random/Carry.antt =====
-- rand as a multiply-with-carry generator.
use os_fall.Base.{
  ℕ, ◌+◌, ◌-◌, ◌*◌, ◌%◌, ◌^◌, ◌≤◌, ◌<◌, ◌≡◌, refl, arith, ◌==◌, if◌then◌else◌, word_size, sub32,
}
use os_fall.Random.{Generator, product, next_digit, next_carry, next_index, rand}

pub record WellFormed (g : Generator) : Type 0 where
  pub words : (i : ℕ) → g.state i < word_size
  pub carry_word : g.carry < word_size
  pub index_bound : g.index < 4096

-- The step in base 2 ^ 32 - 1.
digit-carry :
    (q c : ℕ)
    → q < word_size
    → c < word_size
    → (18782 * q + c ≡ next_carry (product q c) * (2 ^ 32 - 1) + next_digit (product q c))
      × (next_digit (product q c) ≤ 2 ^ 32 - 1)
      × (0 < 18782 * q + c → 0 < next_digit (product q c))
      × (next_carry (product q c) < word_size)
digit-carry q c hq hc = (ground arith, ground arith, λ pos. ground (arith, pos), ground arith)

-- A step from `g` to `h` that returns `r`, in the base 2 ^ 32 - 1.
pub record Steps (g : Generator) (r : ℕ) (h : Generator) : Type 0 where
  pub digit : ℕ
  pub step : 18782 * g.state h.index + g.carry ≡ h.carry * (2 ^ 32 - 1) + digit
  -- The digits are 1 to 2 ^ 32 - 1, and 0 if there is nothing to divide.
  pub bound : digit ≤ 2 ^ 32 - 1
  pub positive : 0 < 18782 * g.state h.index + g.carry → 0 < digit
  pub complement : r ≡ sub32 (2 ^ 32 - 2) digit
  pub kept : (i : ℕ) → h.state i ≡ (if i == h.index then r else g.state i)
  pub around : h.index ≡ (g.index + 1) % 4096
  pub formed : WellFormed h

-- A call of rand on a well-formed generator is one step of a complementary multiply-with-carry
-- generator with the multiplier 18782 and the base 2 ^ 32 - 1: the next entry times 18782 plus the
-- carry is the new carry times the base plus a digit from 1 to the base, or 0 if all of it is 0; and
-- the number returned is 2 ^ 32 - 2 less that digit, as a word. It takes the place of the entry; the other entries stay, and the generator is
-- well-formed again.
pub rand_lem : (g : Generator) → WellFormed g → Steps g (rand g).0 (rand g).1
unfolding rand
rand_lem g w =
    let q = g.state (next_index g) in
    let (law, digit_word, pos, carry_word) = digit-carry q g.carry (w.words _) w.carry_word in
    record {
      digit = next_digit (product q g.carry);
      step = law;
      bound = digit_word;
      positive = pos;
      complement = refl;
      kept = λ i. refl;
      around = omega (arith, w.index_bound);
      formed = record {
        words = λ i. ground (arith, w.words i);
        carry_word = carry_word;
        index_bound = omega arith;
      };
    }
