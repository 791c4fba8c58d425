-- ===== src/Requests/Credentials.antt =====
-- What `normalize_remote` leaves of an address with a scheme: its host and its path.
use mathlib.Core.List.{append_assoc, append-nil}
use super_mem.Base.{
  ℕ, ◌≡◌, refl, sym, ◌∙◌, ap, Text, codes, Bool, true, false, ◌||◌, some, [], ◌∷◌, ◌++◌, ◌==◌,
  text_eq, All, All-append, All-weaken, ◌⊎◌, Bool-cases, inl, inr,
}
use super_mem.Store.Words.{trim, to_ascii_lowercase, split_at, last_or}
use super_mem.Requests.Paths.{forward_slashes, is_slash}
use super_mem.Requests.Remote.{
  split_once, before, from, host_of, drop_slashes, drop_git, normalize_url, normalize_remote,
}
use super_mem.Requests.Bare.{ends_address, NoQuery, normalize_remote-IsBare}

-- What may stand before the host: nothing, or a user with or without a password, and the @ after it.
abbrev pub IsLogin : Text → Type 0
IsLogin login = (login ≡ []) ⊎ ((user : Text) × (login ≡ user ++ (64 ∷ [])))

-- A path is empty or begins with a slash.
abbrev pub IsPath : Text → Type 0
IsPath path = (path ≡ []) ⊎ ((more : Text) × (path ≡ 47 ∷ more))

-- A query or a fragment, or none.
abbrev pub IsQuery : Text → Type 0
IsQuery query =
    (query ≡ []) ⊎ ((c : ℕ) × (more : Text) × (query ≡ c ∷ more) × ((c == 63 || c == 35) ≡ true))

-- A character that ends neither the host nor the path.
abbrev pub IsPlain : ℕ → Type 0
IsPlain c = ((c == 47) ≡ false) × ((c == 63 || c == 35) ≡ false)

module _ (ends : ℕ → Bool) where
  before-append :
      (xs ys : Text) → All (λ c. ends c ≡ false) xs → before ends (xs ++ ys) ≡ xs ++ before ends ys
  unfolding before
  before-append [] ys h = refl
  before-append (x ∷ xs) ys h = rw (h.0, before-append xs ys h.1) refl

  from-append : (xs ys : Text) → All (λ c. ends c ≡ false) xs → from ends (xs ++ ys) ≡ from ends ys
  unfolding from
  from-append [] ys h = refl
  from-append (x ∷ xs) ys h = rw (h.0, from-append xs ys h.1) refl

before-query : (query : Text) → IsQuery query → before ends_address query ≡ []
unfolding before
before-query query (inl e) = rw e refl
before-query query (inr (c, more, e, h)) = rw (e, h) refl

before-path : (path : Text) → IsPath path → before is_slash path ≡ []
unfolding before
before-path path (inl e) = rw e refl
before-path path (inr (more, e)) = rw e refl

from-path : (path : Text) → IsPath path → from is_slash path ≡ path
unfolding from
from-path path (inl e) = rw e refl
from-path path (inr (more, e)) = rw e refl

split_at-host :
    (part host : Text)
    → All (λ c. (c == 64) ≡ false) host
    → split_at (λ c. c == 64) part host ≡ (part ++ host) ∷ []
unfolding split_at
split_at-host part [] h = ap (λ t. t ∷ []) (sym (append-nil part))
split_at-host part (c ∷ host) h =
    rw h.0
      (split_at-host (part ++ c ∷ []) host h.1 ∙ ap (λ t. t ∷ []) (append_assoc part (c ∷ []) host))

last-split_at :
    (part user host last : Text)
    → All (λ c. (c == 64) ≡ false) host
    → last_or (split_at (λ c. c == 64) part (user ++ (64 ∷ host))) last ≡ host
unfolding split_at last_or
last-split_at part [] host last h = rw (split_at-host [] host h) refl
last-split_at part (c ∷ user) host last h = elim (Bool-cases (c == 64)) [
  | inl e ↦ rw e (last-split_at [] user host part h)
  | inr e ↦ rw e (last-split_at (part ++ c ∷ []) user host last h)
]

-- The host is what stands after the login.
host_of-login :
    (login host : Text)
    → IsLogin login
    → All (λ c. (c == 64) ≡ false) host
    → host_of (login ++ host) ≡ to_ascii_lowercase host
unfolding host_of last_or
host_of-login login host (inl e) h = rw (e, split_at-host [] host h) refl
host_of-login login host (inr (user, e)) h = rw e (
    rw (append_assoc user (64 ∷ []) host) (ap to_ascii_lowercase (last-split_at [] user host [] h)))

All-slash : (s : Text) → All IsPlain s → All (λ c. is_slash c ≡ false) s
All-slash s h = All-weaken IsPlain (λ c. is_slash c ≡ false) s (λ c p. p.0) h

All-query : (s : Text) → All IsPlain s → All (λ c. ends_address c ≡ false) s
All-query s h = All-weaken IsPlain (λ c. ends_address c ≡ false) s (λ c p. p.1) h

normalize_url-parts :
    (prefix login host path query : Text)
    → text_eq (to_ascii_lowercase prefix) (codes "file") ≡ false
    → IsLogin login
    → All IsPlain login
    → All IsPlain host
    → All (λ c. (c == 64) ≡ false) host
    → IsPath path
    → All NoQuery path
    → IsQuery query
    → normalize_url prefix ((login ++ host) ++ (path ++ query)) ≡ to_ascii_lowercase host ++ path
unfolding normalize_url
normalize_url-parts prefix login host path query f l lp hp at p pq q =
    let plain = All-append IsPlain login host lp hp in
    let clean : before ends_address ((login ++ host) ++ (path ++ query)) ≡ (login ++ host) ++ path =
      before-append ends_address (login ++ host) (path ++ query) (All-query (login ++ host) plain)
      ∙ ap (λ t. (login ++ host) ++ t)
          (before-append ends_address path query pq
            ∙ ap (λ t. path ++ t) (before-query query q)
            ∙ append-nil path) in
    let slash = All-slash (login ++ host) plain in
    let authority : before is_slash ((login ++ host) ++ path) ≡ login ++ host =
      before-append is_slash (login ++ host) path slash
      ∙ ap (λ t. (login ++ host) ++ t) (before-path path p)
      ∙ append-nil (login ++ host) in
    let rest : from is_slash ((login ++ host) ++ path) ≡ path =
      from-append is_slash (login ++ host) path slash ∙ from-path path p in
    rw f (rw clean (rw (authority, rest) (rw (host_of-login login host l at) refl)))

-- Of an address with a scheme other than `file`, after which stand a login or none, a host, a path or none, and a
-- query, a fragment or none: what is kept is the host in lower case and the path, without slashes and
-- `.git` at its end. Nothing of the user, the password, the query and the fragment is in it: there
-- is no @ up to the first slash, and no question mark and no hash at all.
pub normalize_remote_without_credentials :
    (remote prefix login host path query result : Text)
    → split_once (codes "://") (forward_slashes (trim remote))
      ≡ some (prefix, (login ++ host) ++ (path ++ query))
    → text_eq (to_ascii_lowercase prefix) (codes "file") ≡ false
    → IsLogin login
    → All IsPlain login
    → All IsPlain host
    → All (λ c. (c == 64) ≡ false) host
    → IsPath path
    → All (λ c. (c == 63 || c == 35) ≡ false) path
    → IsQuery query
    → normalize_remote remote ≡ some result
    → (result ≡ drop_git (drop_slashes (to_ascii_lowercase host ++ path)))
      × All (λ c. (c == 64) ≡ false) (before is_slash result)
      × All (λ c. (c == 63 || c == 35) ≡ false) result
normalize_remote_without_credentials remote prefix login host path query result e f l lp hp at p pq
      q h =
    let rest = (login ++ host) ++ (path ++ query) in
    let (same, bare) = normalize_remote-IsBare remote prefix rest result e f h in
    (
      sym same
          ∙ ap (λ t. drop_git (drop_slashes t))
              (normalize_url-parts prefix login host path query f l lp hp at p pq q),
      bare.0,
      bare.1,
    )
