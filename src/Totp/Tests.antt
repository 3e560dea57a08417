-- ===== src/Totp/Tests.antt =====
-- Runs of the one-time passwords, and the theorems at concrete secrets. The signature stands for
-- HMAC-SHA-1: it answers with 20 bytes that repeat the counter.
use byos_email.Base.{ℕ, ◌≡◌, refl, true, Option, some, List, [], ◌∷◌, ◌++◌, length, arith}
use byos_email.Base.Text.{Text, codes, trim}
use byos_email.Totp.{
  generate_totp_secret, format_totp_secret, base32_to_bytes, counter_buffer, compute_totp_code,
  verify_totp_client,
}
use byos_email.Totp.Base32.{base32-roundtrip}
use byos_email.Totp.Code.{compute_totp_code-total}
use byos_email.Totp.Window.{verify_of_close}

secret_text : generate_totp_secret (72 ∷ 101 ∷ 108 ∷ 108 ∷ 111 ∷ []) ≡ codes "JBSWY3DP"
unfolding generate_totp_secret
secret_text = refl

shown_secret : format_totp_secret (codes "jbswy3dpeh") ≡ codes "JBSW Y3DP EH"
unfolding format_totp_secret
shown_secret = refl

base32-roundtrip_example :
    base32_to_bytes (generate_totp_secret (255 ∷ 0 ∷ 7 ∷ [])) ≡ 255 ∷ 0 ∷ 7 ∷ []
base32-roundtrip_example = base32-roundtrip (255 ∷ 0 ∷ 7 ∷ []) (omega arith)

abbrev repeat : List ℕ → List ℕ → Option (List ℕ)
repeat key message = some (message ++ message ++ 1 ∷ 2 ∷ 3 ∷ 4 ∷ [])

abbrev hash_of : ℕ → List ℕ
hash_of t = counter_buffer t ++ counter_buffer t ++ 1 ∷ 2 ∷ 3 ∷ 4 ∷ []

hash_length : length (hash_of 2) ≡ 20
unfolding counter_buffer
hash_length = refl

code_at : compute_totp_code repeat (codes "JBSWY3DP") 60 ≡ some (codes "000002")
unfolding compute_totp_code
code_at = refl

compute_totp_code-total_example :
    (code : Text) × (compute_totp_code repeat (codes "JBSWY3DP") 60 ≡ some code) × (length code ≡ 6)
compute_totp_code-total_example =
    compute_totp_code-total repeat (codes "JBSWY3DP") 60 (hash_of 2) refl hash_length

verify_of_close_example : verify_totp_client repeat (codes "JBSWY3DP") (codes "000002") 95 ≡ true
unfolding trim
verify_of_close_example =
    verify_of_close repeat (codes "JBSWY3DP") (codes "000002") 60 95 code_at refl refl (omega arith)
      (omega arith) (omega arith)
