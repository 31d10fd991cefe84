-- ===== src/Mint/Draw.antt =====
-- What is drawn for a token and a device: `newWGTokenPlaintext` and `newWGDeviceID` of
-- internal/wg/store.go, of the random bytes.
use polar_wg.Base.{
  [], ◌%◌, ◌==◌, prefix, digit, ◌/◌, ltb, append, ◌∷◌, String, ℕ, List, if◌then◌else◌,
}

-- A hexadecimal digit
abbrev hex_digit : ℕ → String
hex_digit n =
    if ltb n 10
    then digit n
    else if n == 10
    then "a"
    else if n == 11
    then "b"
    else if n == 12
    then "c"
    else if n == 13
    then "d"
    else if n == 14
    then "e"
    else "f"

-- hex.EncodeToString
unfoldable pub hex_text : List ℕ → String
hex_text [] = ""
hex_text (b ∷ bytes) = append (hex_digit (b / 16)) (append (hex_digit (b % 16)) (hex_text bytes))

-- newWGTokenPlaintext: the plaintext and its prefix, of sixteen bytes
unfoldable pub new_token_plaintext : List ℕ → String × String
unfolding hex_text
new_token_plaintext bytes =
    let plaintext = append "polar_wg_" (hex_text bytes) in (plaintext, prefix 17 plaintext)

-- newWGDeviceID, of eight bytes
unfoldable pub new_device_id : List ℕ → String
unfolding hex_text
new_device_id bytes = append "dev_" (hex_text bytes)
