-- ===== src/Runs/Lookup.antt =====
-- How finding and counting sessions goes through a change of one session, and of all.
use mathlib.Core.Option
use mathlib.Core.Path.{subst}
use comet_l.Prelude.{
  ◌+◌, ◌≡◌, refl, sym, Bool, none, some, List, [], ◌∷◌, map, Text, text_eq, text_eq_iff, count_of,
  All, arith, Bool-cases, inl, inr, if◌then◌else◌,
}
use comet_l.Runs.Types.{Session}
use comet_l.Runs.Store.{find_session, modify_session}

pub find_session-run_id :
    (id : Text) (ss : List Session) {s : Session} → find_session id ss ≡ some s → s.run_id ≡ id
unfolding find_session
find_session-run_id id [] e = cc
find_session-run_id id (t ∷ ss) {s} e = ground (
  arith,
  text_eq_iff t.run_id id,
  λ (h : find_session id ss ≡ some s). find_session-run_id id ss h,
)

pub find_session-modify :
    (id j : Text) (f : Session → Session) (ss : List Session)
    → ((s : Session) → (f s).run_id ≡ s.run_id)
    → find_session j (modify_session id f ss)
      ≡ (if text_eq id j then Option.map f (find_session j ss) else find_session j ss)
unfolding find_session modify_session
find_session-modify id j f [] keep = ground arith
find_session-modify id j f (s ∷ ss) keep = ground (
  arith,
  keep s,
  text_eq_iff s.run_id id,
  text_eq_iff s.run_id j,
  text_eq_iff (f s).run_id j,
  text_eq_iff id j,
  find_session-modify id j f ss keep,
)

-- A change of the session that is found changes a count by what it changes there.
pub count_of-modify :
    (p : Session → Bool) (id : Text) (f : Session → Session) (ss : List Session) {s : Session}
    → find_session id ss ≡ some s
    → count_of p (modify_session id f ss) + (if p s then 1 else 0)
      ≡ count_of p ss + (if p (f s) then 1 else 0)
unfolding find_session modify_session
count_of-modify p id f [] e = cc
count_of-modify p id f (t ∷ ss) {s} e =
    ground (arith, λ (h : find_session id ss ≡ some s). count_of-modify p id f ss h)

pub modify_session_absent :
    (id : Text) (f : Session → Session) (ss : List Session)
    → find_session id ss ≡ none
    → modify_session id f ss ≡ ss
unfolding find_session modify_session
modify_session_absent id f [] e = refl
modify_session_absent id f (t ∷ ss) e = ground (arith, modify_session_absent id f ss)

pub All-modify_session {κ} :
    (P : Session → Type κ) (id : Text) (f : Session → Session) (ss : List Session)
    → ((s : Session) → P s → P (f s))
    → All P ss
    → All P (modify_session id f ss)
unfolding modify_session
All-modify_session P id f [] keep h = tt
All-modify_session P id f (s ∷ ss) keep h = elim (Bool-cases (text_eq s.run_id id)) [
  | inl here ↦ rw here (keep s h.0, h.1)
  | inr other ↦ rw other (h.0, All-modify_session P id f ss keep h.1)
]

pub find_session-map :
    (j : Text) (g : Session → Session) (ss : List Session)
    → ((s : Session) → (g s).run_id ≡ s.run_id)
    → find_session j (map g ss) ≡ Option.map g (find_session j ss)
unfolding find_session
find_session-map j g [] keep = refl
find_session-map j g (s ∷ ss) keep = ground (arith, keep s, find_session-map j g ss keep)

pub count_of-map :
    (p : Session → Bool) (g : Session → Session) (ss : List Session)
    → ((s : Session) → p (g s) ≡ p s)
    → count_of p (map g ss) ≡ count_of p ss
count_of-map p g [] keep = refl
count_of-map p g (s ∷ ss) keep = ground (arith, keep s, count_of-map p g ss keep)

pub All-map {κ} :
    (P : Session → Type κ) (g : Session → Session) (ss : List Session)
    → ((s : Session) → P s → P (g s))
    → All P ss
    → All P (map g ss)
All-map P g [] keep h = tt
All-map P g (s ∷ ss) keep h = (keep s h.0, All-map P g ss keep h.1)

pub All-found {κ} :
    (P : Session → Type κ) (id : Text) (ss : List Session) {s : Session}
    → All P ss
    → find_session id ss ≡ some s
    → P s
unfolding find_session
All-found P id [] h e = cc
All-found P id (t ∷ ss) {s} h e = elim (Bool-cases (text_eq t.run_id id)) [
  | inl here ↦ let same : t ≡ s = ground arith in rw (← same) h.0
  | inr other ↦ All-found P id ss h.1 (ground arith)
]

pub find_session_self :
    (id : Text) (ss : List Session) {s : Session}
    → find_session id ss ≡ some s
    → find_session s.run_id ss ≡ some s
find_session_self id ss {s} e =
    let same : s.run_id ≡ id = find_session-run_id id ss e in
    subst (λ (x : Text). find_session x ss ≡ some s) (sym same) e
