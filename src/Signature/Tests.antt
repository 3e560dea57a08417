-- ===== src/Signature/Tests.antt =====
-- Runs of the signature functions, and the theorem at two mailboxes.
use byos_email.Base.{◌≡◌, refl, true, some, [], ◌∷◌, ◌++◌}
use byos_email.Base.Text.{codes}
use byos_email.Signature.{load_signature, save_signature, apply_signature}
use byos_email.Signature.Storage.{shown, load-save}

signed :
    apply_signature (codes "Hi") (codes " Ann ")
    ≡ codes "Hi" ++ (10 ∷ 10 ∷ codes "-- ") ++ 10 ∷ codes "Ann"
unfolding apply_signature
signed = refl

load-save_example :
    (load_signature (codes "b1") (save_signature true (codes "b1") (codes "Ann") (some []))
      ≡ shown (codes "Ann"))
    × (load_signature (codes "b2") (save_signature true (codes "b1") (codes "Ann") (some []))
        ≡ load_signature (codes "b2") (some []))
load-save_example = load-save (codes "b1") (codes "b2") (codes "Ann") [] refl refl
