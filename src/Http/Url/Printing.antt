-- ===== src/Http/Url/Printing.antt =====
-- The text of a URL of http/src/Http.cpp by its groups, and the groups of that text.
use koya_plugins.Base.{
  ℕ, ◌≡◌, refl, ap, ◌∙◌, Bool, true, false, Option, none, some, [], ◌∷◌, ◌++◌, arith, Bytes, codes,
  ◌==◌, if◌then◌else◌, is_empty, Bool-cases, inl, inr,
}
use koya_plugins.Http.Url.{
  UrlMatch, slash, colon, is_host, is_digit, is_visible, span, behind, all, match_path,
  match_digits, match_port, match_host, match_url,
}

-- The text of which the groups are the parts.
abbrev pub port_text : Option Bytes → Bytes
port_text none = []
port_text (some digits) = colon ∷ digits

abbrev pub path_text : Option Bytes → Bytes
path_text none = []
path_text (some path) = path

abbrev pub scheme_text : Bool → Bytes
scheme_text secure = if secure then codes "https://" else codes "http://"

abbrev pub url_text : UrlMatch → Bytes
url_text m = scheme_text m.secure ++ (m.host ++ (port_text m.port ++ path_text m.path))

abbrev pub IsPort : Option Bytes → Type 0
IsPort none = Unit {0}
IsPort (some digits) = (is_empty digits ≡ false) × (all is_digit digits ≡ true)

abbrev pub IsPath : Option Bytes → Type 0
IsPath none = Unit {0}
IsPath (some []) = ⊥
IsPath (some (c ∷ text)) = ((c == slash) ≡ true) × (all is_visible text ≡ true)

-- The host is not empty and has no slash and no colon; the port is digits; the path begins with a
-- slash and has no white space.
pub record IsUrl (m : UrlMatch) : Type 0 where
  pub named : is_empty m.host ≡ false
  pub plain : all is_host m.host ≡ true
  pub digits : IsPort m.port
  pub visible : IsPath m.path

-- What does not begin with a byte that passes.
abbrev Stops : (ℕ → Bool) → Bytes → Type 0
Stops p [] = Unit {0}
Stops p (c ∷ text) = p c ≡ false

span-append : (p : ℕ → Bool) (s t : Bytes) → all p s ≡ true → Stops p t → span p (s ++ t) ≡ (s, t)
unfolding span
span-append p [] [] a st = refl
span-append p [] (c ∷ t) a st = rw st refl
span-append p (c ∷ s) t a st = ground (arith, span-append p s t)

pub span-parts :
    (p : ℕ → Bool) (text : Bytes)
    → ((span p text).0 ++ (span p text).1 ≡ text) × (all p (span p text).0 ≡ true)
unfolding span
span-parts p [] = (refl, refl)
span-parts p (c ∷ text) = elim (Bool-cases (p c)) [
  | inl e ↦ rw e (ap (λ t. c ∷ t) (span-parts p text).0, rw e ((span-parts p text).1))
  | inr e ↦ rw e (refl, refl)
]

behind-append : (s t : Bytes) → behind s (s ++ t) ≡ some t
unfolding behind
behind-append [] t = refl
behind-append (c ∷ s) t = ground (arith, behind-append s t)

pub behind-parts : (s text rest : Bytes) → behind s text ≡ some rest → text ≡ s ++ rest
unfolding behind
behind-parts [] text rest h = cc
behind-parts (c ∷ s) [] rest h = cc
behind-parts (c ∷ s) (d ∷ text) rest h = ground (arith, behind-parts s text rest)

-- What may follow the host, and what may follow the port.
after_host-Stops :
    (port path : Option Bytes) → IsPath path → Stops is_host (port_text port ++ path_text path)
after_host-Stops none none v = tt
after_host-Stops none (some []) v = absurd v
after_host-Stops none (some (c ∷ text)) v = ground (arith, v.0)
after_host-Stops (some digits) path v = refl

path-Stops : (path : Option Bytes) → IsPath path → Stops is_digit (path_text path)
path-Stops none v = tt
path-Stops (some []) v = absurd v
path-Stops (some (c ∷ text)) v = ground (arith, v.0)

match_path-text :
    (secure : Bool) (host : Bytes) (port path : Option Bytes)
    → IsPath path
    → match_path secure host port (path_text path)
      ≡ some (record { secure = secure; host = host; port = port; path = path })
match_path-text secure host port none v = refl
match_path-text secure host port (some []) v = absurd v
match_path-text secure host port (some (c ∷ text)) v = rw (v.0, v.1) refl

match_port-text :
    (secure : Bool) (host : Bytes) (port path : Option Bytes)
    → IsPort port
    → IsPath path
    → match_port secure host (port_text port ++ path_text path)
      ≡ some (record { secure = secure; host = host; port = port; path = path })
match_port-text secure host none none d v = refl
match_port-text secure host none (some []) d v = absurd v
match_port-text secure host none (some (c ∷ text)) d v =
    let other : (c == colon) ≡ false = ground (arith, v.0) in
    rw other (match_path-text secure host none (some (c ∷ text)) v)
match_port-text secure host (some []) path d v = absurd (cc (d.0))
match_port-text secure host (some (e ∷ digits)) path d v =
    ap (match_digits secure host)
      (span-append is_digit (e ∷ digits) (path_text path) (d.1) (path-Stops path v))
    ∙ match_path-text secure host (some (e ∷ digits)) path v

match_host-text :
    (m : UrlMatch)
    → IsUrl m
    → match_host m.secure (span is_host (m.host ++ (port_text m.port ++ path_text m.path))) ≡ some m
match_host-text m u =
    ap (match_host m.secure) (
      span-append is_host m.host (port_text m.port ++ path_text m.path) u.plain
        (after_host-Stops m.port m.path u.visible))
    ∙ named m.host u.named
  where
    named :
        (host : Bytes)
        → is_empty host ≡ false
        → match_host m.secure (host, port_text m.port ++ path_text m.path)
          ≡ some (record { secure = m.secure; host = host; port = m.port; path = m.path })
    named [] e = cc
    named (c ∷ host) e = match_port-text m.secure (c ∷ host) m.port m.path u.digits u.visible

match_url-scheme :
    (secure : Bool) (text : Bytes)
    → match_url (scheme_text secure ++ text) ≡ match_host secure (span is_host text)
unfolding match_url behind
match_url-scheme true text = refl
match_url-scheme false text = refl

pub match_url-text : (m : UrlMatch) → IsUrl m → match_url (url_text m) ≡ some m
match_url-text m u =
    match_url-scheme m.secure (m.host ++ (port_text m.port ++ path_text m.path))
    ∙ match_host-text m u
