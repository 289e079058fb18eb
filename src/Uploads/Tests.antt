-- ===== src/Uploads/Tests.antt =====
-- An upload in two chunks (src/platform/inline_upload.rs), and the theorems applied to it.
use toolsite.Common.{
  ℕ, ◌≤◌, ◌≡◌, ◌≢◌, refl, sym, ap, ◌∙◌, Bool, false, ◌&&◌, Option, none, some, List, [], ◌∷◌, arith,
  if◌then◌else◌, ◌==◌, Text, same, codes, length, trim, text_discrete, lookup, insert, modify,
}
use native.Mathlib.Decide.{ℕ_discrete}
use toolsite.Tickets.{inline_upload, Rows, Result, ok, put, get, update}
use toolsite.Tickets.Handle.{
  Codec, CodecLaws, digest, seal, seal_payload, open_sealed, get_ticket, put_ticket, update_ticket,
  edit_sealed, update_through,
}
use toolsite.Tickets.Edits.{Holds}
use toolsite.Tickets.Plain.{plain_cipher, plain_cipher-Laws, some-eq}
use toolsite.Uploads.{
  Files, FilesLaws, UploadKind, page, Sizes, InlineUpload, Outcome, done, refused, ticket, begin,
  chunk_within, finish, checked, count_chunk, settle, set_size, total, past_ceiling,
}
use toolsite.Uploads.Tracked.{Call, Brought}
use toolsite.Uploads.Finished.{arrive, AllDone, brought, IsWhole, finish-joins}
use toolsite.Uploads.Joined.{joined}
use toolsite.Uploads.Cancelled.{over_ceiling_cancels}

abbrev Spool : Type 0
Spool = Text → ℕ → Option Text

abbrev files : Files Spool
files = record {
  put = λ f name i b. some (λ n j. if same n name && j == i then some b else f n j);
  read = λ f name i. some (f name i);
  clear = λ f name n j. if same n name then none else f n j;
  sweep = λ f age. f;
}

files_put : Spool → Text → ℕ → Text → Text → ℕ → Option Text
files_put f name i b n j = if same n name && j == i then some b else f n j

put_self :
    (f : Spool) (name : Text) (i : ℕ) (b : Text)
    → (if same name name && i == i then some b else f name i) ≡ some b
put_self f name i b = ground arith

put_other :
    (f : Spool) (name : Text) (i j : ℕ) (b : Text)
    → i ≢ j
    → (if same name name && j == i then some b else f name j) ≡ f name j
put_other f name i j b n = ground arith

files-Laws : FilesLaws files
files-Laws = record {
  read-put_self = λ f f' name i b e.
      ap (λ g. some (g name i)) (sym (some-eq e)) ∙ ap (λ o. some o) (put_self f name i b);
  read-put_other = λ f f' name i j b e n.
      ap (λ g. some (g name j)) (sym (some-eq e)) ∙ ap (λ o. some o) (put_other f name i j b n);
}

-- The codec encodes uploads of one page, of nobody, with their sizes.
abbrev base : InlineUpload
base = record {
  slug = [];
  kind = page;
  meta = record { push = false; message = none; commit = none };
  user = none;
  project = none;
  chunks = [];
}

abbrev flat : Sizes → Text
flat [] = []
flat ((i, n) ∷ sizes) = i ∷ n ∷ flat sizes

abbrev unflat : Text → Sizes
unflat [] = []
unflat (i ∷ []) = []
unflat (i ∷ n ∷ s) = (i, n) ∷ unflat s

unflat-flat : (sizes : Sizes) → unflat (flat sizes) ≡ sizes
unflat-flat [] = refl
unflat-flat ((i, n) ∷ sizes) = ap (λ r. (i, n) ∷ r) (unflat-flat sizes)

abbrev encode_parts :
    Text
    → UploadKind
    → Bool
    → Option Text
    → Option Text
    → Option Text
    → Option Text
    → Sizes
    → Option Text
encode_parts [] page false none none none none sizes = some (flat sizes)
encode_parts slug kind push message commit user project sizes = none

abbrev codec : Codec InlineUpload
codec = record {
  encode = λ u.
      encode_parts u.slug u.kind u.meta.push u.meta.message u.meta.commit u.user u.project u.chunks;
  decode = λ m. some (record base { chunks = unflat m });
}

encode_parts-base :
    (slug : Text) (kind : UploadKind) (push : Bool) (message commit user project : Option Text)
    (sizes : Sizes) (m : Text)
    → encode_parts slug kind push message commit user project sizes ≡ some m
    → record base { chunks = unflat m } ≡ record {
      slug = slug;
      kind = kind;
      meta = record { push = push; message = message; commit = commit };
      user = user;
      project = project;
      chunks = sizes;
    }
encode_parts-base [] page false none none none none sizes m e =
    ap (λ ch. record base { chunks = ch }) (ap unflat (sym (some-eq e)) ∙ unflat-flat sizes)
encode_parts-base slug kind push message commit user project sizes m e =
    absurd (let f : ⊥ = cc in f)

codec-Laws : CodecLaws codec
codec-Laws = record {
  decode-encode = λ u m e.
      ap (λ x. some x)
        (encode_parts-base u.slug u.kind u.meta.push u.meta.message u.meta.commit u.user u.project
          u.chunks m e);
}

abbrev nonce : Text
nonce = codes "123456789012345678901234"

abbrev key : Text
key = codes "key"

abbrev id : Text
id = codes "abc"

seals :
    (n : Text) (ch : Sizes)
    → length n ≡ 24
    → (stored : Text) × (seal_payload plain_cipher codec key
          (digest plain_cipher inline_upload id)
          n
          (record base { chunks = ch })
        ≡ ok stored)
unfolding seal_payload seal
seals n ch h = (_, refl)

abbrev brings : ℕ → Text → ℕ → Call
brings i text at = record { index = i; text = text; nonce = nonce; at = at }

abbrev calls : List Call
calls = brings 1 (codes "cc") 12 ∷ brings 0 (codes "aa") 13 ∷ brings 1 (codes "bb") 14 ∷ []

abbrev begun : Result Text × Rows × Spool
begun = begin files plain_cipher codec (λ t. some t) key [] (λ name i. none) base id nonce 10

begun_ok : begun.0 ≡ ok id
unfolding begin put_ticket seal_payload seal
begun_ok = refl

abbrev BroughtBy : List Call → Brought
BroughtBy cs =
    brought files files-Laws plain_cipher plain_cipher-Laws codec codec-Laws (λ t. some t) key id
      910 100 base seals (λ _. none) cs

two-IsWhole :
    IsWhole files files-Laws plain_cipher plain_cipher-Laws codec codec-Laws
      (λ t. some t)
      key
      id
      910
      100
      base
      seals
      (BroughtBy calls)
      2
unfolding trim
two-IsWhole = record {
  some_chunk = omega arith;
  not_too_many = omega arith;
  there = λ k h. ground arith;
  no_more = λ k h. ground arith;
}

all_done :
    AllDone files files-Laws plain_cipher plain_cipher-Laws codec codec-Laws
      (λ t. some t)
      key
      id
      910
      100
      base
      seals
      begun.1
      begun.2
      calls
unfolding begin put_ticket seal_payload seal chunk_within checked count_chunk settle set_size total
    update_ticket update_through edit_sealed open_sealed put update get lookup insert modify digest
    trim text_discrete ℕ_discrete
all_done = (
  (record { received = 2; present = 1 ∷ [] }, refl),
  (
    (record { received = 4; present = 0 ∷ 1 ∷ [] }, refl),
    ((record { received = 4; present = 0 ∷ 1 ∷ [] }, refl), tt),
  ),
)

abbrev arrived : Rows × Spool
arrived =
    arrive files files-Laws plain_cipher plain_cipher-Laws codec codec-Laws (λ t. some t) key id 910
      100 base seals begun.1 begun.2 calls

abbrev answer : Outcome (InlineUpload × Text) × Rows × Spool
answer = finish files plain_cipher codec (λ t. some t) key arrived.0 arrived.1 id 2 20

finish-joins_example :
    ((ch : Sizes) × (answer.0 ≡ done (record base { chunks = ch }, joined (BroughtBy calls) 0 2)))
    × (length (joined (BroughtBy calls) 0 2) ≤ 100)
    × (get_ticket plain_cipher codec answer.1 key inline_upload id 30 ≡ ok none)
    × (answer.2 ≡ files.clear arrived.1 (digest plain_cipher inline_upload id))
finish-joins_example =
    finish-joins files files-Laws plain_cipher plain_cipher-Laws codec codec-Laws (λ t. some t) key
      id 910 100 base seals [] (λ name i. none) nonce 10 tt refl refl begun_ok calls
      ((omega arith, refl), ((omega arith, refl), ((omega arith, refl), tt))) all_done 2 20 30
      (omega arith) two-IsWhole

joined_two : joined (BroughtBy calls) 0 2 ≡ codes "aabb"
unfolding joined trim
joined_two = refl

-- The ticket after its first chunk, of two bytes.
abbrev after_one : Rows × Spool
after_one =
    arrive files files-Laws plain_cipher plain_cipher-Laws codec codec-Laws (λ t. some t) key id 910
      100 base seals begun.1 begun.2 (brings 1 (codes "cc") 12 ∷ [])

one_held :
    Holds plain_cipher plain_cipher-Laws codec codec-Laws key after_one.0 inline_upload id 910
      (record base { chunks = (1, 2) ∷ [] })
unfolding arrive begin put_ticket seal_payload seal chunk_within checked count_chunk settle set_size
    total update_ticket update_through edit_sealed open_sealed put update get lookup insert modify
    digest trim text_discrete ℕ_discrete
one_held = (refl, refl, refl)

too_much : checked (some (trim (codes "abcd"))) 2 ≡ done (codes "abcd")
unfolding checked trim
too_much = refl

over_ceiling_cancels_example :
    let a =
      chunk_within files plain_cipher codec
        (λ t. some t)
        key
        after_one.0
        after_one.1
        id
        2
        (codes "abcd")
        nonce
        20
        5 in
    (a.0 ≡ refused (ticket past_ceiling))
    × (get_ticket plain_cipher codec a.1 key inline_upload id 30 ≡ ok none)
    × (a.2 ≡ files.clear after_one.1 (digest plain_cipher inline_upload id))
unfolding total
over_ceiling_cancels_example =
    over_ceiling_cancels files plain_cipher plain_cipher-Laws codec codec-Laws (λ t. some t) key id
      910 after_one.0 after_one.1 (record base { chunks = (1, 2) ∷ [] }) 2 (codes "abcd")
      (codes "abcd") nonce 20 30 5 (omega arith) one_held too_much (omega arith)
