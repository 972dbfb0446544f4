-- ===== src/Bridge/Exclusion.antt =====
-- No two holders of a session: what the claims of internal/bridge/session.go keep out.
use omp_telegram.Common.{
  Text, text_eq, Bool, false, List, [], ◌∷◌, All, All-delete, exists?, delete, exists?-delete_mono,
  ◌≡◌, refl, arith,
}
use omp_telegram.Store.Migrations.{lower_text}
use omp_telegram.Bridge.Claims.{
  SessionClaim, Reservation, Claims, session_ids_match, is_rival, is_rival_export, is_match, is_at,
  put_claim,
}

text_eq-sym : (s t : Text) → text_eq s t ≡ text_eq t s
unfolding text_eq
text_eq-sym [] [] = refl
text_eq-sym [] (b ∷ t) = refl
text_eq-sym (a ∷ s) [] = refl
text_eq-sym (a ∷ s) (b ∷ t) = ground (arith, text_eq-sym s t)

pub session_ids_match-sym : (a b : Text) → session_ids_match a b ≡ session_ids_match b a
unfolding session_ids_match
session_ids_match-sym a b = ground (arith, text_eq-sym (lower_text a) (lower_text b))

-- No `a` of one list has a rival in the other.
module _ {A B : Type 0} (rival : A → B → Bool) where
  abbrev pub Apart : List A → List B → Type 0
  Apart xs ys = All (λ a. exists? (rival a) ys ≡ false) xs

  pub Apart-cons :
      (b : B) (xs : List A) (ys : List B)
      → All (λ a. rival a b ≡ false) xs
      → Apart xs ys
      → Apart xs (b ∷ ys)
  unfolding exists?
  Apart-cons b [] ys h k = tt
  Apart-cons b (a ∷ xs) ys h k = (ground (arith, h.0, k.0), Apart-cons b xs ys h.1 k.1)

  pub Apart-delete :
      (p : B → Bool) (xs : List A) (ys : List B) → Apart xs ys → Apart xs (delete p ys)
  Apart-delete p [] ys h = tt
  Apart-delete p (a ∷ xs) ys h = (exists?-delete_mono (rival a) p ys h.0, Apart-delete p xs ys h.1)

  -- The rivals of `b`, found from the other side.
  pub no_rival :
      (q : A → Bool) (b : B) (xs : List A)
      → ((a : A) → rival a b ≡ q a)
      → exists? q xs ≡ false
      → All (λ a. rival a b ≡ false) xs
  unfolding exists?
  no_rival q b [] same h = tt
  no_rival q b (a ∷ xs) same h = (ground (arith, same a), no_rival q b xs same (ground arith))

-- A session is claimed by one worker at most, and then no other exports it; an export is one worker's; a
-- session that is being deleted is not exported, and by no other worker deleted.
pub record Exclusive (c : Claims) : Type 0 where
  pub sessions_apart : All (λ s. exists? (is_rival s.owner s.id) c.sessions ≡ false) c.sessions
  pub exports_apart : All (λ e. exists? (is_rival_export e.owner e.id) c.exports ≡ false) c.exports
  pub exports_alone : All (λ e. exists? (is_rival e.owner e.id) c.sessions ≡ false) c.exports
  pub deletes_alone : All (λ d. exists? (is_match d.id) c.exports ≡ false) c.deletes
  pub deletes_apart : All (λ d. exists? (is_rival_export d.owner d.id) c.deletes ≡ false) c.deletes

abbrev pub session_rival : SessionClaim → SessionClaim → Bool
session_rival s t = is_rival s.owner s.id t

abbrev pub export_rival : Reservation → Reservation → Bool
export_rival e f = is_rival_export e.owner e.id f

abbrev pub cross_rival : Reservation → SessionClaim → Bool
cross_rival e s = is_rival e.owner e.id s

abbrev pub delete_rival : Reservation → Reservation → Bool
delete_rival d e = is_match d.id e

session_rival-sym : (s t : SessionClaim) → session_rival s t ≡ session_rival t s
session_rival-sym s t = ground (arith, session_ids_match-sym s.id t.id)

pub export_rival-sym : (e f : Reservation) → export_rival e f ≡ export_rival f e
export_rival-sym e f = ground (arith, session_ids_match-sym e.id f.id)

cross_rival-sym :
    (e : Reservation) (s : SessionClaim) → cross_rival e s ≡ is_rival_export s.owner s.id e
cross_rival-sym e s = ground (arith, session_ids_match-sym e.id s.id)

-- Claims on fewer sessions.
pub drop_sessions :
    (p : SessionClaim → Bool) (c : Claims)
    → Exclusive c
    → Exclusive (record c { sessions = delete p c.sessions })
drop_sessions p c h = record {
  sessions_apart =
      All-delete _ p c.sessions
        (Apart-delete session_rival p c.sessions c.sessions h.sessions_apart);
  exports_apart = h.exports_apart;
  exports_alone = Apart-delete cross_rival p c.exports c.sessions h.exports_alone;
  deletes_alone = h.deletes_alone;
  deletes_apart = h.deletes_apart;
}

-- A new claim that no other worker's claim or export is in the way of.
add_session :
    (x : SessionClaim) (c : Claims)
    → exists? (is_rival x.owner x.id) c.sessions ≡ false
    → exists? (is_rival_export x.owner x.id) c.exports ≡ false
    → Exclusive c
    → Exclusive (record c { sessions = x ∷ c.sessions })
unfolding exists?
add_session x c free unexported h =
    let others =
      no_rival session_rival (session_rival x) x c.sessions (λ s. session_rival-sym s x) free in
    record {
      sessions_apart = (
        ground (arith, free),
        Apart-cons session_rival x c.sessions c.sessions others h.sessions_apart,
      );
      exports_apart = h.exports_apart;
      exports_alone =
          Apart-cons cross_rival x c.exports c.sessions
            (no_rival cross_rival (is_rival_export x.owner x.id) x c.exports
              (λ e. cross_rival-sym e x) unexported)
            h.exports_alone;
      deletes_alone = h.deletes_alone;
      deletes_apart = h.deletes_apart;
    }

pub put_claim-Exclusive :
    (x : SessionClaim) (c : Claims)
    → exists? (is_rival x.owner x.id) c.sessions ≡ false
    → exists? (is_rival_export x.owner x.id) c.exports ≡ false
    → Exclusive c
    → Exclusive (record c { sessions = put_claim x c.sessions })
unfolding put_claim
put_claim-Exclusive x c free unexported h =
    add_session x (record c { sessions = delete (is_at x.path) c.sessions })
      (exists?-delete_mono (is_rival x.owner x.id) (is_at x.path) c.sessions free) unexported
      (drop_sessions (is_at x.path) c h)
