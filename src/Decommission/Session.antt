-- ===== src/Decommission/Session.antt =====
-- What all the decommission messages of a run do to the tracker.
use mathlib.Core.List.{Memᴰ}
use notip_data_consumer.Prelude.{
  ◌≡◌, ◌⊎◌, refl, ap, ◌∙◌, subst, inl, inr, Option, none, some, List, [], ◌∷◌, ◌++◌, ◌==◌, ==-refl,
  arith, All, Bool-cases,
}
use notip_data_consumer.Prelude.Bytes.{Bytes, lit}
use notip_data_consumer.Prelude.GoMap.{lookup}
use notip_data_consumer.Prelude.Outcome.{ok, err}
use notip_data_consumer.Subject.Split.{HasParts, extract_ids_iff}
use notip_data_consumer.Tracker.{GatewayKey, key_eq, key_eqb_iff, Tracker}
use notip_data_consumer.TelemetryConsumer.{Ack, ack, term}
use notip_data_consumer.Decommission.{handle_msg, handle_all, run_decommissions}
use notip_data_consumer.Decommission.Forgets.{Forgotten, Rejected, handle_msg-Forgets}

-- The subject has four parts between dots, the last two of which are the key's.
abbrev pub Names : GatewayKey → Bytes → Type 0
Names k subject = (a b : Bytes) × HasParts subject a b k.tenant_id k.gateway_id

Names-unique : (subject : Bytes) (k j : GatewayKey) → Names k subject → Names j subject → k ≡ j
Names-unique subject k j h h' = ground (
  arith,
  (extract_ids_iff subject k.tenant_id k.gateway_id).1 h,
  (extract_ids_iff subject j.tenant_id j.gateway_id).1 h',
)

-- A message is acknowledged exactly if it names a gateway, and otherwise terminated.
abbrev pub IsAnswer : Bytes → Ack → Type 0
IsAnswer subject verdict =
    ((k : GatewayKey) × Names k subject × (verdict ≡ ack))
    ⊎ (((k : GatewayKey) → ¬ Names k subject) × (verdict ≡ term))

abbrev pub AreAnswers : List Bytes → List Ack → Type 0
AreAnswers [] [] = Unit {0}
AreAnswers (s ∷ ss) (a ∷ acks) = IsAnswer s a × AreAnswers ss acks
AreAnswers [] (_ ∷ _) = ⊥
AreAnswers (_ ∷ _) [] = ⊥

-- What the messages make of the tracker `t`, and how they are answered.
pub record Session (subjects : List Bytes) (t t' : Tracker) (acks : List Ack) : Type 0 where
  pub answers : AreAnswers subjects acks
  pub gone :
      (k : GatewayKey) (subject : Bytes)
      → Memᴰ subject subjects
      → Names k subject
      → lookup k t'.beats ≡ none
  pub kept :
      (k : GatewayKey) → All (λ s. ¬ Names k s) subjects → lookup k t'.beats ≡ lookup k t.beats
  pub nothing_sent : t'.dispatcher ≡ t.dispatcher

-- One message.
pub record OneMsg (subject : Bytes) (t : Tracker) (end : Tracker × Ack) : Type 0 where
  pub answer : IsAnswer subject end.1
  pub gone : (k : GatewayKey) → Names k subject → lookup k end.0.beats ≡ none
  pub kept : (k : GatewayKey) → (¬ Names k subject) → lookup k end.0.beats ≡ lookup k t.beats
  -- what was gone stays so
  pub none_back : (k : GatewayKey) → lookup k t.beats ≡ none → lookup k end.0.beats ≡ none
  pub nothing_sent : end.0.dispatcher ≡ t.dispatcher

Forgotten-OneMsg :
    (subject : Bytes) (t : Tracker) (end : Tracker × Ack)
    → Forgotten subject t end
    → OneMsg subject t end
Forgotten-OneMsg subject t end h = record {
  answer = inl (h.key, (h.first, h.second, h.named), h.acknowledged);
  gone = λ k names.
      let same : h.key ≡ k = Names-unique subject h.key k (h.first, h.second, h.named) names in
      h.entries k ∙ rw same (ground (arith, ==-refl k));
  kept = λ k other. elim (Bool-cases (h.key == k)) [
    | inl here ↦ absurd (
        other (
          subst (λ j. Names j subject) ((key_eqb_iff h.key k).0 here) (h.first, h.second, h.named)))
    | inr there ↦ h.entries k ∙ rw there refl
  ];
  none_back = λ k e. ground (arith, h.entries k);
  nothing_sent = h.nothing_sent;
}

Rejected-OneMsg :
    (subject : Bytes) (t : Tracker) (end : Tracker × Ack)
    → Rejected subject t end
    → OneMsg subject t end
Rejected-OneMsg subject t end h = record {
  answer = inr ((λ k (a, b, parts). h.nameless a b k.tenant_id k.gateway_id parts), h.terminated);
  gone = λ k (a, b, parts). absurd (h.nameless a b k.tenant_id k.gateway_id parts);
  kept = λ k _. ap (λ (s : Tracker). lookup k s.beats) h.untouched;
  none_back = λ k e. ap (λ (s : Tracker). lookup k s.beats) h.untouched ∙ e;
  nothing_sent = ap (λ (s : Tracker). s.dispatcher) h.untouched;
}

handle_msg-OneMsg : (subject : Bytes) (t : Tracker) → OneMsg subject t (handle_msg subject t)
handle_msg-OneMsg subject t = elim (handle_msg-Forgets subject t) [
  | inl h ↦ Forgotten-OneMsg subject t (handle_msg subject t) h
  | inr h ↦ Rejected-OneMsg subject t (handle_msg subject t) h
]

-- What is gone stays gone, since no decommission message adds an entry.
handle_all-none_back :
    (k : GatewayKey) (subjects : List Bytes) (t : Tracker)
    → lookup k t.beats ≡ none
    → lookup k (handle_all subjects t).0.beats ≡ none
unfolding handle_all
handle_all-none_back k [] t e = e
handle_all-none_back k (subject ∷ subjects) t e =
    handle_all-none_back k subjects (handle_msg subject t).0
      ((handle_msg-OneMsg subject t).none_back k e)

first_or_later :
    (first : Bytes) (subjects : List Bytes) (t : Tracker)
    → OneMsg first t (handle_msg first t)
    → ((k : GatewayKey) (s : Bytes)
        → Memᴰ s subjects
        → Names k s
        → lookup k (handle_all subjects (handle_msg first t).0).0.beats ≡ none)
    → (k : GatewayKey) (s : Bytes) → Memᴰ s (first ∷ subjects)
    → Names k s
    → lookup k (handle_all subjects (handle_msg first t).0).0.beats ≡ none
first_or_later first subjects t one later k s (Memᴰ.head e) names =
    handle_all-none_back k subjects (handle_msg first t).0 (one.gone k (subst (Names k) e names))
first_or_later first subjects t one later k s (Memᴰ.tail m) names = later k s m names

handle_all-Session :
    (subjects : List Bytes) (t : Tracker)
    → Session subjects t (handle_all subjects t).0 (handle_all subjects t).1
unfolding handle_all
handle_all-Session [] t = record {
  answers = tt;
  gone = λ k subject here. elim here [ ];
  kept = λ k _. refl;
  nothing_sent = refl;
}
handle_all-Session (subject ∷ subjects) t =
    let one = handle_msg-OneMsg subject t in
    let rest = handle_all-Session subjects (handle_msg subject t).0 in
    record {
      answers = (one.answer, rest.answers);
      gone = first_or_later subject subjects t one rest.gone;
      kept = λ k others. rest.kept k others.1 ∙ one.kept k others.0;
      nothing_sent = rest.nothing_sent ∙ one.nothing_sent;
    }

-- If the subscription fails, `Run` handles no message and returns the error with the subject. If not,
-- it acknowledges exactly the messages that name a gateway, by the last two of four parts between
-- dots, and terminates the others; the tracker has forgotten each gateway that a message names, has
-- the entry of every other gateway as before, and has sent nothing to the management API.
pub run_decommissions-Session :
    (subscribed : Option Bytes) (subjects : List Bytes) (t : Tracker)
    → ((e : Bytes) × (subscribed ≡ some e)
        × (run_decommissions subscribed subjects t
            ≡ err (lit "subscribe gateway.decommissioned.>: " ++ e)))
      ⊎ ((t' : Tracker) × (acks : List Ack) × (subscribed ≡ none)
          × (run_decommissions subscribed subjects t ≡ ok (t', acks))
          × Session subjects t t' acks)
unfolding run_decommissions
run_decommissions-Session (some e) subjects t = inl (e, refl, refl)
run_decommissions-Session none subjects t = inr (
  (handle_all subjects t).0,
  (handle_all subjects t).1,
  refl,
  refl,
  handle_all-Session subjects t,
)
