-- ===== src/Skb.antt =====
-- toy_src/skbuff.c: the room in a buffer. A pointer into the memory of a buffer is its distance from
-- `head`, so that `head` is 0 and `end` is `size`; moving a pointer out of the memory has no result
-- in C, and is `none`.
pub mod Layers
pub mod Fit
pub mod Queue
pub mod Refine
mod Tests
use toy_ip.Base.{ℕ, ◌+◌, ◌-◌, Option, none, some, u32, leb, if◌then◌else◌}

-- The fields of `struct sk_buff` that say where its bytes lie.
pub record Buffer : Type 0 where
  pub size : ℕ
  pub position : ℕ
  pub len : ℕ
  pub dlen : ℕ

unfoldable pub alloc_skb : ℕ → Buffer
alloc_skb size = record { size = size; position = 0; len = 0; dlen = 0 }

unfoldable pub skb_reserve : ℕ → Buffer → Option Buffer
skb_reserve len b =
    if leb (b.position + len) b.size then some (record b { position = b.position + len }) else none

unfoldable pub skb_push : ℕ → Buffer → Option Buffer
skb_push len b =
    if leb len b.position
    then some (record b { position = b.position - len; len = u32 (b.len + len) })
    else none

unfoldable pub skb_reset_header : Buffer → Option Buffer
skb_reset_header b =
    if leb b.dlen b.size then some (record b { position = b.size - b.dlen; len = b.dlen }) else none
