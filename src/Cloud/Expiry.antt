-- ===== src/Cloud/Expiry.antt =====
-- How long a token from the programs on the same machine lives.
use polar_wg.Cloud.{ok, Hub, Token, Db, max_ttl, Fresh, World, token_ttl, internal_mint}
use polar_wg.Store.Tokens.{is_past, insert_token}
use polar_wg.Mint.{create_token_for_device}
use polar_wg.Base.{◌∙◌, arith, false, ◌+◌, some, ◌≡◌, ◌<◌, String, ◌≤◌, Bool, ℕ, time_add, duration}
use mathlib.Core.Path.{ap}

token_ttl-bounds : (sec : ℕ) → sec ≤ 9223372036 → (0 < token_ttl sec) × (token_ttl sec ≤ max_ttl)
unfolding token_ttl duration
token_ttl-bounds sec small = ground arith

minted_expires :
    (w : World) (loopback : Bool) (slug label : String) (ttl : ℕ) (f : Fresh) (now : ℕ) (db : Db)
    (r : Db × Token × Hub)
    → internal_mint w loopback slug label ttl f now db ≡ ok r
    → r.1.expires_at ≡ some (time_add now (token_ttl ttl))
unfolding internal_mint create_token_for_device insert_token
minted_expires w loopback slug label ttl f now db r done = ground arith

added : (now d : ℕ) → 0 < d → d ≤ max_ttl → time_add now d ≡ now + d
unfolding time_add
added now d low small = ground arith

-- A token that is minted from the same machine, with at most 9223372036 seconds to live asked
-- for, expires after the present time and no later than thirty days from it.
pub internal_mint-expiry :
    (w : World) (loopback : Bool) (slug label : String) (ttl : ℕ) (f : Fresh) (now : ℕ) (db : Db)
    (r : Db × Token × Hub)
    → ttl ≤ 9223372036
    → internal_mint w loopback slug label ttl f now db ≡ ok r
    → (e : ℕ) × (r.1.expires_at ≡ some e)
      × (now < e)
      × (e ≤ now + max_ttl)
      × (is_past r.1.expires_at now ≡ false)
internal_mint-expiry w loopback slug label ttl f now db r small done =
    let (low, high) = token_ttl-bounds ttl small in
    let e : r.1.expires_at ≡ some (now + token_ttl ttl) =
      minted_expires w loopback slug label ttl f now db r done
      ∙ ap (λ x. some x) (added now (token_ttl ttl) low high) in
    (now + token_ttl ttl, e, omega (arith, low), omega (arith, high), rw e (ground (arith, low)))
