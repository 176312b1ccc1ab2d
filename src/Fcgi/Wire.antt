-- ===== src/Fcgi/Wire.antt =====
-- The connection below a FastCGI client, callbacks/fcgiclient/fcgiclient.go: what was written, what
-- the peer will send, and how each write ends. Actions on it are explicit state passing.
use dove.Base.{
  ℕ, ◌≡◌, refl, sym, ap, Option, none, some, List, [], ◌∷◌, ◌++◌, append_assoc, append-nil, take,
  Bytes, nat_eq, bytes_eq, Result, ok, err,
}

pub data Error : Type 0 where
  write_failed eof unexpected_eof invalid_version : Error

-- `outcomes` are the environment's: `none` lets a write through, `some n` breaks it after `n`
-- bytes. With no outcome left every write goes through.
pub record Wire : Type 0 where
  pub sent : Bytes
  pub incoming : Bytes
  pub outcomes : List (Option ℕ)

pub record Header : Type 0 where
  pub version : ℕ
  pub kind : ℕ
  pub id : ℕ
  pub content_length : ℕ
  pub padding_length : ℕ
  pub reserved : ℕ

pub record FcgiClient : Type 0 where
  pub wire : Wire
  pub h : Header

abbrev pub Act : Type 0 → Type 0
Act A = FcgiClient → Result Error A × FcgiClient

abbrev pub continue : {A B : Type 0} → Result Error A → (A → Act B) → Act B
continue (ok a) f c = f a c
continue (err e) f c = (err e, c)

infixl 5 ◌>>=◌ ◌>>◌
abbrev pub ◌>>=◌ : {A B : Type 0} → Act A → (A → Act B) → Act B
◌>>=◌ m f c = let (r, c') = m c in continue r f c'

abbrev pub ◌>>◌ : {A B : Type 0} → Act A → Act B → Act B
◌>>◌ m n = ◌>>=◌ m (λ _. n)

abbrev pub pure : {A : Type 0} → A → Act A
pure a c = (ok a, c)

-- rwc.Write(p)
unfoldable pub net_write : Bytes → Act (Unit {0})
net_write p c = elim c.wire.outcomes [
  | [] ↦ (ok tt, record c { wire = record c.wire { sent = c.wire.sent ++ p } })
  | none ∷ os ↦
      (ok tt, record c { wire = record c.wire { sent = c.wire.sent ++ p; outcomes = os } })
  | some n ∷ os ↦ (
    err write_failed,
    record c { wire = record c.wire { sent = c.wire.sent ++ take n p; outcomes = os } },
  )
]

-- From a client whose writes go through, the action returns with exactly `bs` written.
pub record Sends {A : Type 0} (m : Act A) (c : FcgiClient) (a : A) (bs : Bytes) : Type 0 where
  pub result : (m c).0 ≡ ok a
  pub sent_lem : (m c).1.wire.sent ≡ c.wire.sent ++ bs
  pub incoming_lem : (m c).1.wire.incoming ≡ c.wire.incoming
  pub outcomes_lem : (m c).1.wire.outcomes ≡ []
  pub reserved_lem : (m c).1.h.reserved ≡ 0

pub record IsOpen (c : FcgiClient) : Type 0 where
  pub outcomes_lem : c.wire.outcomes ≡ []
  pub reserved_lem : c.h.reserved ≡ 0

pub Sends-IsOpen :
    {A : Type 0} {m : Act A} {c : FcgiClient} {a : A} {bs : Bytes} → Sends m c a bs → IsOpen (m c).1
Sends-IsOpen s = record { outcomes_lem = s.outcomes_lem; reserved_lem = s.reserved_lem }

pub Sends-pure : {A : Type 0} (a : A) {c : FcgiClient} → IsOpen c → Sends (pure a) c a []
Sends-pure a o = record {
  result = refl;
  sent_lem = sym (append-nil _);
  incoming_lem = refl;
  outcomes_lem = o.outcomes_lem;
  reserved_lem = o.reserved_lem;
}

pub bind_result :
    {A B : Type 0} (m : Act A) (f : A → Act B) (c : FcgiClient) {a : A}
    → (m c).0 ≡ ok a
    → (m >>= f) c ≡ f a (m c).1
bind_result m f c e = ap (λ r. continue r f (m c).1) e

pub Sends-bind :
    {A B : Type 0} (m : Act A) (f : A → Act B) {c : FcgiClient} {a : A} {b : B} {bs bs' : Bytes}
    → Sends m c a bs
    → Sends (f a) (m c).1 b bs'
    → Sends (m >>= f) c b (bs ++ bs')
Sends-bind m f {c} {a} {b} {bs} {bs'} s s' = record {
  result = cc (e, s'.result);
  sent_lem = cc (e, s'.sent_lem, s.sent_lem, append_assoc c.wire.sent bs bs');
  incoming_lem = cc (e, s'.incoming_lem, s.incoming_lem);
  outcomes_lem = cc (e, s'.outcomes_lem);
  reserved_lem = cc (e, s'.reserved_lem);
}
  where
    e : (m >>= f) c ≡ f a (m c).1
    e = bind_result m f c s.result
