-- ===== src/Mime/Tests.antt =====
-- Runs of the message text, and the round trip at a message.
use byos_email.Base.{◌≡◌, false, any, arith, ◌==◌, refl, ◌++◌, [], ◌∷◌}
use byos_email.Base.Text.{Text, codes, trim}
use byos_email.Mime.{
  or_all, extract_subject, extract_body, plain_message, two_part_message, snippet_of, crlf,
}
use byos_email.Mime.RoundTrip.{IsInline, IsLf, message-roundtrip}

abbrev subject : Text
subject = codes " Re: plans "

IsLf-of_test : (s : Text) → any (λ c. c == 13) s ≡ false → IsLf s
IsLf-of_test [] h = tt
IsLf-of_test (c ∷ s) h = (ground (arith, h), IsLf-of_test s (ground (arith, h)))

abbrev paragraphs : Text
paragraphs = codes "Dear Ann" ++ 10 ∷ 10 ∷ 10 ∷ codes "Subject: none" ++ 10 ∷ []

subject-IsInline : IsInline (trim subject)
unfolding trim
subject-IsInline = (refl, (refl, (refl, (refl, (refl, (refl, (refl, (refl, (refl, tt)))))))))

paragraphs-IsLf : IsLf paragraphs
paragraphs-IsLf = IsLf-of_test paragraphs refl

message-roundtrip_example :
    let plaintext = plain_message (codes "a@b") (trim subject) paragraphs in
    (extract_subject (codes "?") plaintext ≡ trim subject)
    × ((extract_body plaintext ≡ paragraphs)
        × (or_all (trim (extract_body plaintext)) plaintext ≡ trim paragraphs))
unfolding trim
message-roundtrip_example =
    message-roundtrip (codes "?") (codes "a@b") subject paragraphs (refl, (refl, (refl, tt)))
      subject-IsInline refl refl paragraphs-IsLf

-- A header without a subject: the blanks after the colon take the line end with them.
empty_header :
    extract_subject
      (codes "known")
      (codes "Subject:" ++ crlf ++ codes "X: 1" ++ crlf ++ crlf ++ codes "hi")
    ≡ codes "X: 1"
unfolding extract_subject
empty_header = refl

-- Of a message in two parts the whole markup is shown.
two_parts :
    extract_body
      (two_part_message (codes "b") (codes "a@b") (codes "s") (codes "hi") (codes "<p>hi</p>"))
    ≡ codes "--b"
      ++ crlf
      ++ codes "Content-Type: text/plain; charset=utf-8"
      ++ (10 ∷ 10 ∷ codes "hi")
      ++ crlf
      ++ codes "--b"
      ++ crlf
      ++ codes "Content-Type: text/html; charset=utf-8"
      ++ (10 ∷ 10 ∷ codes "<p>hi</p>")
      ++ crlf
      ++ codes "--b--"
unfolding extract_body two_part_message
two_parts = refl

squeezed : snippet_of (codes "  a " ++ 10 ∷ codes " b ") ≡ codes "a b"
unfolding snippet_of
squeezed = refl
