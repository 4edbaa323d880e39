-- ===== src/Ring/Order.antt =====
-- server/ringhash/ringhash.go: the order of the items of the ring.
use server_chat.Common.{◌≡◌, refl, arith, true, false, [], ◌∷◌}
use server_chat.Common.Bytes.{Bytes}
use server_chat.Ring.{Elem, lt_bytes, less}

-- Two texts of which neither is before the other are the same.
lt_bytes-antisym : (a b : Bytes) → lt_bytes a b ≡ false → lt_bytes b a ≡ false → a ≡ b
lt_bytes-antisym [] [] h k = refl
lt_bytes-antisym [] (y ∷ b) h k = cc
lt_bytes-antisym (x ∷ a) [] h k = cc
lt_bytes-antisym (x ∷ a) (y ∷ b) h k = ground (arith, lt_bytes-antisym a b)

pub lt_bytes_trans :
    (a b c : Bytes) → lt_bytes b a ≡ false → lt_bytes c b ≡ false → lt_bytes c a ≡ false
lt_bytes_trans [] b c h k = refl
lt_bytes_trans (x ∷ a) [] c h k = cc
lt_bytes_trans (x ∷ a) (y ∷ b) [] h k = cc
lt_bytes_trans (x ∷ a) (y ∷ b) (z ∷ c) h k = ground (arith, lt_bytes_trans a b c)

pub less-antisym : (a b : Elem) → less a b ≡ false → less b a ≡ false → a.key ≡ b.key
unfolding less
less-antisym a b h k = ground (arith, lt_bytes-antisym a.key b.key)

pub less_trans : (a b c : Elem) → less b a ≡ false → less c b ≡ false → less c a ≡ false
unfolding less
less_trans a b c h k = ground (arith, lt_bytes_trans a.key b.key c.key)

lt_bytes_irrefl : (a : Bytes) → lt_bytes a a ≡ false
lt_bytes_irrefl [] = refl
lt_bytes_irrefl (x ∷ a) = ground (arith, lt_bytes_irrefl a)

pub less_irrefl : (a : Elem) → less a a ≡ false
unfolding less
less_irrefl a = ground (arith, lt_bytes_irrefl a.key)

lt_bytes-asym : (a b : Bytes) → lt_bytes a b ≡ true → lt_bytes b a ≡ false
lt_bytes-asym [] [] h = refl
lt_bytes-asym [] (y ∷ b) h = refl
lt_bytes-asym (x ∷ a) [] h = cc
lt_bytes-asym (x ∷ a) (y ∷ b) h = ground (arith, lt_bytes-asym a b)

pub less-asym : (a b : Elem) → less a b ≡ true → less b a ≡ false
unfolding less
less-asym a b h = ground (arith, lt_bytes-asym a.key b.key)
