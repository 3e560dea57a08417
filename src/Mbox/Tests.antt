-- ===== src/Mbox/Tests.antt =====
-- Runs of the reader of mbox files, and the theorem at two messages.
use byos_email.Base.{◌≡◌, refl, List, [], ◌∷◌, ◌++◌}
use byos_email.Base.Text.{Text, codes, trim}
use byos_email.Mime.{crlf, join_with}
use byos_email.Mbox.{messages_from, split_mbox}
use byos_email.Mbox.Printed.{IsMessage, printed, messages_from-printed}

abbrev hello : List Text
hello = codes "Subject: a" ∷ [] ∷ codes "From me" ∷ []

abbrev bye : List Text
bye = codes "Subject: b" ∷ []

two :
    split_mbox (codes "From x" ++ 10 ∷ codes "a" ++ 13 ∷ 10 ∷ codes "From y" ++ 10 ∷ codes "b")
    ≡ (codes "From x" ++ 13 ∷ 10 ∷ codes "a") ∷ codes "b" ∷ []
unfolding split_mbox
two = refl

hello-IsMessage : IsMessage hello
unfolding trim
hello-IsMessage = record { not_empty = refl; visible = refl; fresh = (refl, (refl, (refl, tt))) }

bye-IsMessage : IsMessage bye
unfolding trim
bye-IsMessage = record { not_empty = refl; visible = refl; fresh = (refl, tt) }

messages_from-printed_example :
    messages_from [] (printed (codes "From x") (hello ∷ bye ∷ []))
    ≡ join_with crlf (codes "From x" ∷ hello) ∷ join_with crlf bye ∷ []
messages_from-printed_example =
    messages_from-printed (codes "x") hello (bye ∷ []) hello-IsMessage (bye-IsMessage, tt)
