-- ===== src/Http/Url/Reading.antt =====
-- What the pattern of URLs in http/src/Http.cpp matches, and the parts that it finds.
use koya_plugins.Base.{
  ◌≡◌, refl, sym, ap, ◌∙◌, subst, ◌↔◌, Bool, true, false, Option, none, some, [], ◌∷◌, ◌++◌, arith,
  Bytes, codes, ◌==◌, ◌&&◌, Bool-cases, Option-cases, inl, inr,
}
use koya_plugins.Http.Url.{
  UrlMatch, slash, colon, is_host, is_digit, is_visible, span, behind, all, match_path,
  match_digits, match_port, match_host, match_url,
}
use koya_plugins.Http.Url.Printing.{
  port_text, path_text, scheme_text, url_text, IsPort, IsPath, IsUrl, span-parts, behind-parts,
  match_url-text,
}

-- A text that matches from the path on, and what it is then.
abbrev Tail : Bool → Bytes → Option Bytes → Bytes → UrlMatch → Type 0
Tail secure host port text m =
    (path : Option Bytes) × (m ≡ record { secure = secure; host = host; port = port; path = path })
    × IsPath path
    × (text ≡ path_text path)

match_path-Tail :
    (secure : Bool) (host : Bytes) (port : Option Bytes) (text : Bytes) (m : UrlMatch)
    → match_path secure host port text ≡ some m
    → Tail secure host port text m
match_path-Tail secure host port [] m h = (none, cc, tt, refl)
match_path-Tail secure host port (c ∷ text) m h =
    elim (Bool-cases (c == slash && all is_visible text)) [
      | inl e ↦ (some (c ∷ text), cc (rw e at h), ground (arith, e), refl)
      | inr e ↦ absurd (cc (rw e at h))
    ]

-- The same from the port on.
abbrev Rest : Bool → Bytes → Bytes → UrlMatch → Type 0
Rest secure host text m =
    (port : Option Bytes) × (path : Option Bytes) × (m
      ≡ record { secure = secure; host = host; port = port; path = path })
    × IsPort port
    × IsPath path
    × (text ≡ port_text port ++ path_text path)

match_digits-Rest :
    (secure : Bool) (host text : Bytes) (parts : Bytes × Bytes) (m : UrlMatch)
    → parts.0 ++ parts.1 ≡ text
    → all is_digit parts.0 ≡ true
    → match_digits secure host parts ≡ some m
    → Rest secure host (colon ∷ text) m
match_digits-Rest secure host text ([], rest) m e a h = absurd (cc h)
match_digits-Rest secure host text (d ∷ digits, rest) m e a h =
    let (path, is, v, eq) = match_path-Tail secure host (some (d ∷ digits)) rest m h in
    (
      some (d ∷ digits),
      path,
      is,
      (refl, a),
      v,
      ap (λ t. colon ∷ t) (sym e ∙ ap (λ t. (d ∷ digits) ++ t) eq),
    )

match_port-Rest :
    (secure : Bool) (host text : Bytes) (m : UrlMatch)
    → match_port secure host text ≡ some m
    → Rest secure host text m
match_port-Rest secure host [] m h = (none, none, cc, tt, tt, refl)
match_port-Rest secure host (c ∷ text) m h = elim (Bool-cases (c == colon)) [
  | inl e ↦
      let eq : c ≡ colon = ground arith in
      subst (λ k. Rest secure host (k ∷ text) m) (sym eq)
        (match_digits-Rest secure host text (span is_digit text) m (span-parts is_digit text).0
          (span-parts is_digit text).1 (rw e at h))
  | inr e ↦
      let (path, is, v, eq) = match_path-Tail secure host none (c ∷ text) m (rw e at h) in
      (none, path, is, tt, v, eq)
]

abbrev Whole : Bool → Bytes → UrlMatch → Type 0
Whole secure text m =
    (m.secure ≡ secure) × IsUrl m × (text ≡ m.host ++ (port_text m.port ++ path_text m.path))

match_host-Whole :
    (secure : Bool) (text : Bytes) (parts : Bytes × Bytes) (m : UrlMatch)
    → parts.0 ++ parts.1 ≡ text
    → all is_host parts.0 ≡ true
    → match_host secure parts ≡ some m
    → Whole secure text m
match_host-Whole secure text ([], rest) m e a h = absurd (cc h)
match_host-Whole secure text (c ∷ host, rest) m e a h =
    let (port, path, is, d, v, eq) = match_port-Rest secure (c ∷ host) rest m h in
    subst (Whole secure text) (sym is) (
      refl,
      record { named = refl; plain = a; digits = d; visible = v },
      sym e ∙ ap (λ t. (c ∷ host) ++ t) eq,
    )

assembled :
    (secure : Bool) (rest url : Bytes) (m : UrlMatch)
    → url ≡ scheme_text secure ++ rest
    → match_host secure (span is_host rest) ≡ some m
    → IsUrl m × (url ≡ url_text m)
assembled secure rest url m e h =
    let (same, is, eq) =
      match_host-Whole secure rest (span is_host rest) m (span-parts is_host rest).0
        (span-parts is_host rest).1 h in
    (
      is,
      e
          ∙ ap (λ t. scheme_text secure ++ t) eq
          ∙ ap (λ b. scheme_text b ++ (m.host ++ (port_text m.port ++ path_text m.path)))
              (sym same),
    )

match_url-parts :
    (url : Bytes) (m : UrlMatch) → match_url url ≡ some m → IsUrl m × (url ≡ url_text m)
unfolding match_url
match_url-parts url m h = elim (Option-cases (behind (codes "https://") url)) [
  | inr (rest, e) ↦
      assembled true rest url m (behind-parts (codes "https://") url rest e)
        (rw (e, match_url) at h)
  | inl e ↦ elim (Option-cases (behind (codes "http://") url)) [
    | inr (rest, d) ↦
        assembled false rest url m (behind-parts (codes "http://") url rest d)
          (rw (e, d, match_url) at h)
    | inl d ↦ absurd (cc (rw (e, d, match_url) at h))
  ]
]

-- The worker takes a URL apart exactly as it is put together: it finds the groups `m` in a text if and
-- only if the text is `http://` or `https://`, a host that is not empty and has no slash and no colon,
-- then, where they are there, a colon with a port of one digit or more and a path that begins with a
-- slash and has no white space, and these are the groups.
pub match_url_iff :
    (url : Bytes) (m : UrlMatch) → (match_url url ≡ some m) ↔ (IsUrl m × (url ≡ url_text m))
match_url_iff url m = (match_url-parts url m, λ h. ap match_url (h.1) ∙ match_url-text m (h.0))
