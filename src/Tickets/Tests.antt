-- ===== src/Tickets/Tests.antt =====
-- The ticket store of src/state/tickets.rs on small inputs, with a cipher and a codec that meet their
-- laws: the theorems' hypotheses can hold.
use toolsite.Common.{
  ℕ, ◌≡◌, ◌≢◌, refl, none, some, List, [], ◌∷◌, ◌++◌, arith, Text, codes, length, map_option,
  lookup, text_discrete, ◌≤◌, insert, remove, Distinct, leb, if◌then◌else◌,
}
use toolsite.Tickets
use toolsite.Tickets.Postgres.{live_count}
use toolsite.Tickets.{
  upload, login, inline_upload, Row, Rows, Result, ok, err, edit_refused, put, take,
}
use toolsite.Tickets.Plain.{plain_cipher, plain_cipher-Laws, some-eq}
use toolsite.Tickets.Store.{Call, puts, takes, run, step}
use toolsite.Tickets.Once.{wins, wins-le-one}
use toolsite.Tickets.Handle.{
  Codec, CodecLaws, digest, seal_payload, open_sealed, seal, put_ticket, take_ticket, get_ticket,
  update_ticket,
}
use toolsite.Tickets.RoundTrip.{digest_injective, redeemed_as_minted}
use toolsite.Tickets.Postgres.{Table}
use toolsite.Tickets.Postgres.Refinement.{table_is_memory, view, view_answer, answer, execute}
use toolsite.Tickets.Edits.{Holds, two_edits_land}

abbrev plain_codec : Codec Text
plain_codec = record { encode = λ m. some m; decode = λ m. some m }

plain_codec-Laws : CodecLaws plain_codec
plain_codec-Laws = record { decode-encode = λ x m e. cc }

abbrev nonce : Text
nonce = codes "123456789012345678901234"

abbrev key : Text
key = codes "key"

abbrev id : Text
id = codes "abc"

abbrev at : Text
at = digest plain_cipher login id

abbrev other : Text
other = digest plain_cipher upload id

abbrev row : Text → Row
row digest = record { kind = codes "login"; digest = digest; sealed = codes "x"; expires_at = 50 }

abbrev held : Rows
held = (at, row at) ∷ (other, row other) ∷ []

upload_is_not_login : other ≢ at
upload_is_not_login e =
    let (k, i) = digest_injective plain_cipher plain_cipher-Laws upload login id id e in cc

abbrev history : List (ℕ × Call)
history = (1, takes (codes "login") at) ∷ (2, puts (row other)) ∷ (3, takes (codes "login") at) ∷ []

held-Distinct : Distinct held
unfolding lookup digest text_discrete
held-Distinct = (refl, (refl, tt))

wins_once : wins at held history ≡ 1
unfolding wins step take put lookup insert remove digest text_discrete
wins_once = refl

wins-le-one_example : wins at held history ≤ 1
wins-le-one_example =
    wins-le-one at held history held-Distinct (tt, (upload_is_not_login, (tt, tt)))

seal_login :
    seal_payload plain_cipher plain_codec key at nonce (codes "me")
    ≡ ok (nonce ++ length at ∷ (at ++ codes "me"))
unfolding seal_payload seal
seal_login = refl

abbrev minted_login : Row
minted_login = record {
  kind = codes "login";
  digest = at;
  sealed = nonce ++ length at ∷ (at ++ codes "me");
  expires_at = 160;
}

put_login :
    put_ticket plain_cipher plain_codec [] key login 60 0 (codes "me") id nonce 100
    ≡ (ok id, (at, minted_login) ∷ [])
unfolding put_ticket put insert seal_payload seal
put_login = refl

abbrev one_minted : Rows
one_minted = (at, minted_login) ∷ []

abbrev upload_taken : List (ℕ × Call)
upload_taken = (110, takes (codes "upload") other) ∷ []

redeemed_as_minted_example :
    (get_ticket plain_cipher plain_codec (run one_minted upload_taken) key login id 120
      ≡ ok (some (codes "me")))
    × ((take_ticket plain_cipher plain_codec (run one_minted upload_taken) key login id 120).0
        ≡ ok (some (codes "me")))
    × (get_ticket plain_cipher plain_codec
          (take_ticket plain_cipher plain_codec (run one_minted upload_taken) key login id 120).1
          key
          login
          id
          130
        ≡ ok none)
redeemed_as_minted_example =
    redeemed_as_minted plain_cipher plain_cipher-Laws plain_codec plain_codec-Laws key [] one_minted
      login 60 0 (codes "me") id nonce 100 tt refl put_login upload_taken 120 130
      ((omega arith, λ e. upload_is_not_login (some-eq e)), tt) (omega arith)

abbrev prepend : Text → Result (ℕ × Text)
prepend x = ok (7, codes "?" ++ x)

-- An edit that appends, up to three characters.
abbrev append : Text → Text → Result (ℕ × Text)
append x y = if leb 3 (length y) then err (edit_refused (codes "full")) else ok (length y, y ++ x)

minted-Holds :
    Holds plain_cipher plain_cipher-Laws plain_codec plain_codec-Laws key one_minted login id 160
      (codes "me")
unfolding lookup digest text_discrete open_sealed
minted-Holds = (refl, refl, refl)

abbrev sealed_as : Text → Text
sealed_as x = nonce ++ length at ∷ (at ++ x)

seal_as : (x : Text) → seal_payload plain_cipher plain_codec key at nonce x ≡ ok (sealed_as x)
unfolding seal_payload seal
seal_as x = refl

two_edits_land_example :
    let (a, rows) =
      update_ticket plain_cipher plain_codec one_minted key login id nonce 120
        (append (codes "!")) in
    let (b, rows') = update_ticket plain_cipher plain_codec rows key login id nonce 130 prepend in
    (a ≡ ok (some 2))
    × (b ≡ ok (some 7))
    × (get_ticket plain_cipher plain_codec rows' key login id 159 ≡ ok (some (codes "?me!")))
two_edits_land_example =
    two_edits_land plain_cipher plain_cipher-Laws plain_codec plain_codec-Laws key login id 160 120
      130 (omega arith) (omega arith) one_minted (codes "me") nonce nonce (append (codes "!"))
      prepend 2 7 (codes "me!") (codes "?me!") (sealed_as (codes "me!")) (sealed_as (codes "?me!"))
      159 minted-Holds refl refl refl refl (seal_as (codes "me!")) (seal_as (codes "?me!"))

abbrev two_rows : Table
two_rows = row at ∷ row other ∷ []

abbrev minted_third : Row
minted_third = row (digest plain_cipher inline_upload id)

table_is_memory_example :
    (map_option view_answer (execute two_rows (60, puts minted_third))
      ≡ some (answer (view two_rows) (60, puts minted_third)))
    × (live_count two_rows (codes "login") 60
        ≡ Tickets.live_count (view two_rows) (codes "login") 60)
unfolding lookup text_discrete digest
table_is_memory_example =
    table_is_memory two_rows (60, puts minted_third) (codes "login") 60 held-Distinct refl
