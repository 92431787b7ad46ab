-- ===== src/Browser/Counter.antt =====
-- The counter that `computeTotp` signs.
use dotnet_web_api_startpack.Prelude.{
  ℕ, ◌+◌, ◌*◌, ◌^◌, ◌<◌, List, foldl, ◌≡◌, All, arith, length, refl,
}
use dotnet_web_api_startpack.Browser.{fill_bytes, counter_bytes}

-- The number that bytes stand for, the first of which is the highest.
abbrev pub big_endian : List ℕ → ℕ
big_endian bytes = foldl (λ n byte. n * 256 + byte) 0 bytes

-- The counter is signed as the eight bytes of its big-endian form, if it has no more than 64 bits.
pub big_endian-counter_bytes :
    (counter : ℕ)
    → counter < 2 ^ 64
    → (length (counter_bytes counter) ≡ 8)
      × All (λ byte. byte < 256) (counter_bytes counter)
      × (big_endian (counter_bytes counter) ≡ counter)
unfolding fill_bytes
big_endian-counter_bytes counter h = (refl, ground arith, omega arith)
