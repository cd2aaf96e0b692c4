-- ===== src/Handlers/Replies.antt =====
-- What a handler replies: the modified body, and when it is "304 Not Modified".
use locaccel.Prelude.{
  ℕ, String, List, [], ◌∷◌, Option, none, some, Bool, true, false, ◌==◌, eq_iff, if◌then◌else◌, ◌≡◌,
  ◌⊎◌, inl, inr, refl, sym, ap, ◌∙◌, arith, Bool-cases,
}
use mathlib.Core.Path.{subst}
use locaccel.Prelude.Panic.{returns}
use locaccel.Prelude.Text.Decimal.{itoa}
use locaccel.Http.Headers.{Header, find, values, get, has, find-put}
use locaccel.Handlers.{
  Incoming, Reply, matches_original_query, bind, is_gzipped, with_length, decoded, encoded,
  modify_body, optionally_modified,
}

bind-some :
    {A B : Type 0} (o : Option A) (f : A → Option B) (b : B)
    → bind o f ≡ some b
    → (a : A) × (o ≡ some a) × (f a ≡ some b)
bind-some none f b h = absurd (ground (arith, h))
bind-some (some a) f b h = (a, refl, h)

-- What a name has once the header is written over what it has: the values of the header's last entry
-- of the name, if there is one.
abbrev pub written_over : String → Header → Option (List String) → Option (List String)
written_over name [] old = old
written_over name ((key, vs) ∷ header) old =
    written_over name header (if key == name then some vs else old)

module _ {B : Type 0} (gunzip gzip : B → Option B) (size : B → ℕ) where
  find-with_length :
      (body : B) (header : Header) (name : String)
      → ("Content-Length" ≡ name)
        ⊎ (find (with_length gunzip gzip size body header) name ≡ find header name)
  find-with_length body header name = elim (Bool-cases ("Content-Length" == name)) [
    | inl e ↦ inl ((eq_iff "Content-Length" name).0 e)
    | inr e ↦ inr (ground (arith, e, find-put header "Content-Length" (itoa (size body) ∷ []) name))
  ]

  length_of :
      (body : B) (header : Header)
      → (has header "Content-Length" ≡ false)
        ⊎ (get (with_length gunzip gzip size body header) "Content-Length" ≡ itoa (size body))
  unfolding get values
  length_of body header = elim (Bool-cases (has header "Content-Length")) [
    | inr e ↦ inl e
    | inl e ↦ inr (
        ground
          (arith, e, find-put header "Content-Length" (itoa (size body) ∷ []) "Content-Length"))
  ]

  is_gzipped_kept :
      (body : B) (header : Header)
      → is_gzipped gunzip gzip size (with_length gunzip gzip size body header)
        ≡ is_gzipped gunzip gzip size header
  unfolding get values
  is_gzipped_kept body header =
      ground (arith, find-put header "Content-Length" (itoa (size body) ∷ []) "Content-Encoding")

  -- What is encoded is decoded.
  decoded_if :
      (gzipped : Bool) (changed body : B)
      → ((b z : B) → gzip b ≡ some z → gunzip z ≡ some b)
      → (if gzipped then gzip changed else some changed) ≡ some body
      → (if gzipped then bind (some body) gunzip else some body) ≡ some changed
  decoded_if true changed body law h = law changed body h
  decoded_if false changed body law h = sym h

  -- If a modified response is sent, then what the receiver decodes of its body is what `modify` made
  -- of what the upstream's body decodes to; the status stays, the Content-Length, if there is one, is
  -- the size of the new body, and every other header is as it came. What is compressed is assumed to
  -- decompress to itself.
  pub modify_body-decoded :
      ((b z : B) → gzip b ≡ some z → gunzip z ≡ some b)
      → (modify : B → Incoming B → Option B) (resp out : Incoming B) (name : String)
      → modify_body gunzip gzip size modify resp ≡ some out
      → (content : B) × (changed : B) × (body : B) × (decoded gunzip gzip size resp ≡ some content)
        × (modify content resp ≡ some changed)
        × (decoded gunzip gzip size out ≡ some changed)
        × (out.body ≡ some body)
        × (out.status_code ≡ resp.status_code)
        × ((has resp.header "Content-Length" ≡ false)
            ⊎ (get out.header "Content-Length" ≡ itoa (size body)))
        × (("Content-Length" ≡ name) ⊎ (find out.header name ≡ find resp.header name))
  unfolding modify_body
  modify_body-decoded law modify resp out name h =
      let (content, was, h₁) = bind-some (decoded gunzip gzip size resp) _ out h in
      let (changed, made, h₂) = bind-some (modify content resp) _ out h₁ in
      let (body, coded, h₃) = bind-some (encoded gunzip gzip size resp.header changed) _ out h₂ in
      let new : Incoming B = record resp {
        header = with_length gunzip gzip size body resp.header;
        body = some body;
      } in
      let same : new ≡ out = ground (arith, h₃) in
      (
        content,
        changed,
        body,
        was,
        made,
        ap (decoded gunzip gzip size) (sym same)
            ∙ ap (λ g. if g then bind (some body) gunzip else some body)
                (is_gzipped_kept body resp.header)
            ∙ decoded_if (is_gzipped gunzip gzip size resp.header) changed body law coded,
        ap (λ r. r.body) (sym same),
        ap (λ r. r.status_code) (sym same),
        subst
            (λ o.
              (has resp.header "Content-Length" ≡ false)
              ⊎ (get o.header "Content-Length" ≡ itoa (size body)))
            same (length_of body resp.header),
        subst (λ o. ("Content-Length" ≡ name) ⊎ (find o.header name ≡ find resp.header name)) same
            (find-with_length body resp.header name),
      )

  -- The reply to a response that the client answered: 304 without a body, the response as it is
  -- modified, or 500 without a body. The header of the first two is written over the writer's, that of
  -- the last is the writer's.
  abbrev pub IsReply :
      String → Header → Header → Option (B → Incoming B → Option B) → Incoming B → Reply B → Type 0
  IsReply name writer headers modify resp r =
      ((r.status_code ≡ 304)
        × (find r.header name ≡ written_over name resp.header (find writer name))
        × (r.body ≡ none)
        × (resp.status_code ≡ 200)
        × (matches_original_query headers resp.header ≡ returns true))
      ⊎ (((out : Incoming B) × (optionally_modified gunzip gzip size modify resp ≡ some out)
            × (r.status_code ≡ out.status_code)
            × (find r.header name ≡ written_over name out.header (find writer name))
            × (r.body ≡ out.body))
          ⊎ ((optionally_modified gunzip gzip size modify resp ≡ none)
              × (r.status_code ≡ 500)
              × (r.header ≡ writer)
              × (r.body ≡ none)))
