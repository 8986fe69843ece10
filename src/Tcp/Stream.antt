-- ===== src/Tcp/Stream.antt =====
-- The bytes that the buffers of toy_src/tcp_data.c hold.
use toy_ip.Base.{
  ℕ, zero, suc, ◌-◌, ◌≤◌, ◌<◌, ◌^◌, ◌≡◌, refl, ap, List, [], ◌∷◌, ◌++◌, arith, length, take, drop,
  length-take, length-drop,
}
use toy_ip.Tcp.Types.{Skb}

-- The bytes that a buffer and that a queue still hold.
abbrev pub content : Skb → List ℕ
content skb = take skb.dlen skb.payload

abbrev pub stream : List Skb → List ℕ
stream [] = []
stream (skb ∷ queue) = content skb ++ stream queue

-- `dlen` bytes lie behind `payload`, and `dlen` comes from the 16-bit length of an IP packet.
pub record IsFull (skb : Skb) : Type 0 where
  pub backed : skb.dlen ≤ length skb.payload
  pub short : skb.dlen < 2 ^ 16

take-nil {ℓ} : (A : Type ℓ) (n : ℕ) → take {A = A} n [] ≡ []
take-nil A zero = refl
take-nil A (suc n) = refl

pub take-append {ℓ} :
    {A : Type ℓ} (n m : ℕ) (xs : List A) → n ≤ m → take n xs ++ take (m - n) (drop n xs) ≡ take m xs
take-append zero m xs h = ap (λ k. take k xs) (omega arith)
take-append (suc n) zero xs h = absurd (omega arith)
take-append {A} (suc n) (suc m) [] h = take-nil A (suc m - suc n)
take-append (suc n) (suc m) (x ∷ xs) h =
    let e : suc m - suc n ≡ m - n = omega arith in
    rw e (ap (λ l. x ∷ l) (take-append n m xs (omega arith)))

pub length-content : (skb : Skb) → IsFull skb → length (content skb) ≡ skb.dlen
length-content skb f = omega (arith, length-take skb.dlen skb.payload)

-- What is left of a buffer of which `n` bytes are read.
abbrev pub rest_of : ℕ → Skb → Skb
rest_of n skb = record skb { dlen = skb.dlen - n; payload = drop n skb.payload }

pub rest_of-IsFull : (n : ℕ) (skb : Skb) → IsFull skb → IsFull (rest_of n skb)
rest_of-IsFull n skb f = omega (arith, length-drop n skb.payload)
