-- ===== src/Application/Matching/Cursors.antt =====
-- The cursor that ListMatches hands out is read back as the place of the last entry.
use llm_dating_app.Prelude.{
  ℕ, ◌+◌, ◌≡◌, refl, sym, ap, subst, ◌∙◌, inl, inr, true, false, none, some, List, [], arith, ltb,
  ◌==◌, if◌then◌else◌, Bool-cases, Option-cases, Result-cases, ok, length, Text, is_empty_text, ℤ,
}
use llm_dating_app.Domain.Matching.{MatchSummary}
use llm_dating_app.Application.Paging.{Config, page_limit}
use llm_dating_app.Application.Matching.Listing.{
  Codec, Listings, encode_cursor, MatchCursorPayload, decode_cursor, next_text, list_matches,
  chained, decode_match_cursor, MatchPage, cursor_from, match_payload,
}
use llm_dating_app.Keyset.{page_of, last}
use llm_dating_app.Application.Matching.Following.{match_cursor}

-- What the service relies on of base64 and JSON: decoding undoes encoding and leaves no rest, and no
-- payload is encoded as the empty text.
pub record IsCodec {P : Type 0} (codec : Codec P) : Type 0 where
  pub base64 : (s : Text) → codec.base64_decode (codec.base64_encode s) ≡ some s
  pub json : (p : P) (s : Text) → codec.marshal p ≡ some s → codec.decode_one s ≡ some (p, [])
  pub end_of_input : codec.is_end [] ≡ true
  pub nonempty :
      (p : P) (s : Text) → codec.marshal p ≡ some s → is_empty_text (codec.base64_encode s) ≡ false

module _ {P : Type 0} (codec : Codec P) (laws : IsCodec codec) where
  pub decode-encode :
      (p : P) (text : Text)
      → encode_cursor codec p ≡ some text
      → (decode_cursor codec text ≡ some p) × (is_empty_text text ≡ false)
  unfolding encode_cursor decode_cursor
  decode-encode p text e = elim (Option-cases (codec.marshal p)) [
    | inl h ↦ absurd (ground (arith, h, e))
    | inr (s, h) ↦
        let same : codec.base64_encode s ≡ text = ground (arith, h, e) in
        subst
          (λ x.
            (chained (codec.base64_decode x) (λ raw.
                chained (codec.decode_one raw) (λ r. if codec.is_end r.1 then some r.0 else none))
              ≡ some p)
            × (is_empty_text x ≡ false))
          same
          (rw (laws.base64 s)
            (rw (laws.json p s h) (rw laws.end_of_input (refl, laws.nonempty p s h))))
  ]

page_of-last :
    {A C : Type 0} (cursor : A → C) (size : ℕ) (ms : List A) (x : A) (c : C)
    → last (page_of cursor size ms).entries ≡ some x
    → (page_of cursor size ms).next_cursor ≡ some c
    → c ≡ cursor x
unfolding page_of
page_of-last cursor size ms x c l e = elim (Bool-cases (ltb size (length ms))) [
  | inr k ↦ absurd (ground (arith, k, e))
  | inl k ↦ ground (arith, k, l, e)
]

-- A next cursor that is not empty is the last entry's.
next_text-last :
    {A P : Type 0} (codec : Codec P) (laws : IsCodec codec) (payload : A → P) (size : ℕ)
    (ms : List A) (x : A) (text : Text)
    → last (page_of payload size ms).entries ≡ some x
    → next_text codec (page_of payload size ms).next_cursor ≡ some text
    → is_empty_text text ≡ false
    → decode_cursor codec text ≡ some (payload x)
next_text-last codec laws payload size ms x text l e n =
    let page = page_of payload size ms in
    elim (Option-cases page.next_cursor) [
      | inl h ↦
          let none' : next_text codec none ≡ some text =
            subst (λ o. next_text codec o ≡ some text) h e in
          absurd (ground (arith, none', n))
      | inr (c, h) ↦
          let encoded = subst (λ o. next_text codec o ≡ some text) h e in
          (decode-encode codec laws c text encoded).0
          ∙ ap some (page_of-last payload size ms x c l h)
    ]

module _ {W : Type 0} (repository : Listings W) (config : Config) where
  -- The page that ListMatches returns is that of a listing of its repository.
  list_matches-page_of :
      (codec : Codec MatchCursorPayload) (user : ℕ) (encoded : Text) (requested : ℤ) (now : ℕ)
      (w : W) (page : MatchPage)
      → (list_matches repository config codec user encoded requested now w).0 ≡ ok page
      → (size : ℕ) × (ms : List MatchSummary) × (page.matches
          ≡ (page_of match_payload size ms).entries)
        × (next_text codec (page_of match_payload size ms).next_cursor ≡ some page.next_cursor)
  unfolding list_matches
  list_matches-page_of codec user encoded requested now w page e =
      elim (Option-cases (page_limit config requested)) [
        | inl h ↦ absurd (ground (arith, h, e))
        | inr (size, h) ↦ elim (Option-cases (cursor_from (decode_match_cursor codec) encoded)) [
          | inl k ↦ absurd (ground (arith, h, k, e))
          | inr (c, k) ↦
              let listed =
                repository.list_matches (record { user_id = user; limit = size + 1; cursor = c })
                  w in
              elim (Result-cases listed.0) [
                | inr (x, f) ↦ absurd (ground (arith, h, k, f, e))
                | inl (ms, f) ↦
                    let next = next_text codec (page_of match_payload size ms).next_cursor in
                    elim (Option-cases next) [
                      | inl t ↦ absurd (ground (arith, h, k, f, t, e))
                      | inr (text, t) ↦
                          (size, ms, ground (arith, h, k, f, t, e), ground (arith, h, k, f, t, e))
                    ]
              ]
        ]
      ]

  -- The cursor that ListMatches returns with a page is read back, when it is sent with the next
  -- request, as the place of the last match of the page, where that has a time and an identifier that
  -- are not zero.
  pub list_matches-decode_match_cursor :
      (codec : Codec MatchCursorPayload) (user : ℕ) (encoded : Text) (requested : ℤ) (now : ℕ)
      (w : W) (page : MatchPage) (s : MatchSummary)
      → IsCodec codec
      → (list_matches repository config codec user encoded requested now w).0 ≡ ok page
      → is_empty_text page.next_cursor ≡ false
      → last page.matches ≡ some s
      → (s.match_row.matched_at == 0) ≡ false
      → (s.match_row.id == 0) ≡ false
      → decode_match_cursor codec page.next_cursor ≡ some (match_cursor s)
  unfolding decode_match_cursor
  list_matches-decode_match_cursor codec user encoded requested now w page s laws e n l a b =
      let (size, ms, same, next) = list_matches-page_of codec user encoded requested now w page e in
      let read =
        next_text-last codec laws match_payload size ms s page.next_cursor (sym (ap last same) ∙ l)
          next n in
      ground (arith, read, a, b)
