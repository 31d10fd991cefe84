-- ===== src/Store/Tokens.antt =====
-- The statements on wg_tokens: newWGTokenPlaintext and hashWGToken (the random bytes and the hash are
-- arguments), getWGTokenByID, revokeWGToken, lookupUnusedWGToken, and the INSERT and the UPDATE that
-- mint and consume a token.
use polar_wg.Base.{
  false, ℕ, suc, String, Bool, not, Option, none, some, [], ◌∷◌, ◌++◌, ltb, ◌==◌, if◌then◌else◌,
  str_eq, find, any, update_where,
}
use polar_wg.Errors.{
  Result, ok, err, ◌>>◌, require, token_expired, token_revoked, no_rows, violates, tokens_hash,
}
use polar_wg.Net.{World}
use polar_wg.Store.Rows.{Token, Db, coalesce}

unfoldable pub get_token_by_id : Db → ℕ → Option Token
get_token_by_id db id = find (λ t. t.id == id) db.tokens

-- The INSERT of a new token: its id and hash are set here.
unfoldable pub insert_token : Token → Db → Result (Db × Token)
insert_token t db = do
  require (not (any (λ (r : Token). str_eq r.token_hash t.token_hash) db.tokens))
      (violates tokens_hash)
  let row = record t { id = db.next_token }
  ok (record db { tokens = db.tokens ++ row ∷ []; next_token = suc db.next_token }, row)

-- revokeWGToken
unfoldable pub revoke_token : ℕ → ℕ → Db → Result Db
revoke_token id now db = do
  require (any (λ (t : Token). t.id == id) db.tokens) no_rows
  ok (record db {
    tokens =
        update_where (λ t. t.id == id) (λ t. record t { revoked_at = coalesce t.revoked_at now })
          db.tokens;
  })

-- now.After(*p), and false for nil.
abbrev pub is_past : Option ℕ → ℕ → Bool
is_past none now = false
is_past (some t) now = ltb t now

abbrev not_used_up : ℕ → Option Token → Result (Option Token)
not_used_up now none = ok none
not_used_up now (some t) =
    if is_past t.expires_at now
    then err token_expired
    else elim t.revoked_at [ none ↦ ok (some t) | some r ↦ err token_revoked ]

-- lookupUnusedWGToken: nil when no row has the hash.
unfoldable pub lookup_unused_token : World → String → ℕ → Db → Result (Option Token)
lookup_unused_token w plaintext now db =
    not_used_up now (find (λ t. str_eq t.token_hash (w.hash plaintext)) db.tokens)

abbrev pub consume : ℕ → ℕ → Token → Token
consume now device t = record t { consumed_at = some now; consumed_by_device_id = some device }

-- UPDATE wg_tokens SET consumed_at, consumed_by_device_id
unfoldable pub consume_token : ℕ → ℕ → ℕ → Db → Db
consume_token id now device db = record db {
  tokens = update_where (λ t. t.id == id) (consume now device) db.tokens;
}
