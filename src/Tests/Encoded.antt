-- ===== src/Tests/Encoded.antt =====
-- Base64 lines of 8 characters, and a message in two parts of one line each.
use uld_fdpic.Common.{ℕ, ◌<◌, ◌≡◌, refl, arith, false, some, List, [], ◌∷◌, ◌++◌, All, ℤ, pos}
use uld_fdpic.Mem.{cstr, cstr_scan}
use uld_fdpic.Base64.{
  State, base64_char, encode_byte, encode_loop, encode_final, store_loop, encode_started,
  base64_encode, base64_final,
}
use uld_fdpic.Base64.Calls.{
  Output, encode_lines, final_line, base64_encode_cb_puts, base64_final_cb_puts,
  base64_encode_cb_write, base64_final_cb_write,
}
use uld_fdpic.Base64.Text.{base64_text, decode}
use uld_fdpic.Base64.Open.{IsFresh}
use uld_fdpic.Base64.Lines.{concat}
use uld_fdpic.Base64.Message.{cb_puts-base64_text, cb_write_roundtrip}
use uld_fdpic.Tests.{blank_memory}

abbrev fresh : ℕ → State
fresh len = record {
  dest_len = len;
  dest_pos = 0;
  brem = 0;
  brem_len = 0;
  init = false;
  final = false;
}

fresh-IsFresh : IsFresh (fresh 10)
fresh-IsFresh = record { init = refl; final = refl; least = omega arith; most = omega arith }

-- The count that a callback returns.
abbrev fine : List ℕ → ℤ
fine line = pos 1

abbrev message : List ℕ
message = 77 ∷ 97 ∷ 110 ∷ 121 ∷ 32 ∷ 104 ∷ 97 ∷ []

message_bytes : All (λ x. x < 256) message
message_bytes = (
  omega arith,
  (omega arith, (omega arith, (omega arith, (omega arith, (omega arith, (omega arith, tt)))))),
)

cb_puts-base64_text_example :
    let e = base64_encode_cb_puts fine blank_memory 64 message (fresh 10) in
    let f = base64_final_cb_puts fine e.memory 64 e.state in
    (e.ret ≡ pos 0) × (f.ret ≡ pos 0) × (concat (e.lines ++ f.lines) ≡ base64_text message)
cb_puts-base64_text_example =
    cb_puts-base64_text fine blank_memory 64 (fresh 10) 77 (97 ∷ 110 ∷ 121 ∷ 32 ∷ 104 ∷ 97 ∷ [])
      (λ line. refl) (ground arith) fresh-IsFresh message_bytes

cb_write_roundtrip_example :
    let e = base64_encode_cb_write fine blank_memory 64 message (fresh 10) in
    let f = base64_final_cb_write fine e.memory 64 e.state in
    decode (concat (e.lines ++ f.lines)) ≡ some message
cb_write_roundtrip_example =
    cb_write_roundtrip fine blank_memory 64 (fresh 10) 77 (97 ∷ 110 ∷ 121 ∷ 32 ∷ 104 ∷ 97 ∷ [])
      (λ line. refl) (ground arith) fresh-IsFresh message_bytes

-- Two calls with three bytes each and lines of 4 characters: the first line is not sent, and the
-- second overwrites it.
abbrev first : Output
first = base64_encode_cb_puts fine blank_memory 64 (77 ∷ 97 ∷ 110 ∷ []) (fresh 5)

abbrev second : Output
second = base64_encode_cb_puts fine first.memory 64 (97 ∷ 98 ∷ 99 ∷ []) first.state

lost_line :
    (first.lines ≡ [])
    × (second.lines ≡ [])
    × ((base64_final_cb_puts fine second.memory 64 second.state).lines
        ≡ (89 ∷ 87 ∷ 74 ∷ 106 ∷ []) ∷ [])
unfolding base64_encode_cb_puts base64_final_cb_puts encode_lines final_line base64_final
    base64_encode encode_started encode_final store_loop encode_loop encode_byte base64_char cstr
    cstr_scan
lost_line = (refl, refl, refl)
