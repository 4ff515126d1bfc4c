-- ===== src/Controller/Covered.antt =====
-- A run under the client keeps it true that the uploads of all numbers from a first one up to the
-- next number have been submitted: the operations of src/upload_manager.cpp.
use cpdn_control.Prelude.{
  ℕ, zero, suc, ◌≡◌, refl, sym, ap, ◌∙◌, ◌⊎◌, inl, inr, Bool, true, false, some, List, ◌∷◌, ℤ, pos,
  ◌+ℤ◌, ◌≤ℤ◌, ◌<ℤ◌, +ℤ_parts, eq_of_parts, Bool-cases, if◌then◌else◌, arith,
}
use mathlib.Core.Path.{subst}
use mathlib.Core.List.{Memᴰ}
use cpdn_control.Text.{Bytes}
use cpdn_control.World.{
  TaskState, Event, finished, began_critical_section, ended_critical_section, submitted, History,
  Outside, World, M, ◌>>=◌, emit, call, get_task, put_task,
}
use cpdn_control.World.Leaves.{Leaves, IsBlind, IsQuiet, with_history, >>=-eq-some}
use cpdn_control.Child.Quiet.{leaves_rules}
use cpdn_control.Upload.{
  UploadManager, UploadOperationResult, succeeded, uploads_enabled, logical_upload_name,
}
use cpdn_control.Upload.Process.{process_scheduled_upload, finalize_remaining_uploads}
use cpdn_control.Upload.Ledger.{Ledger, ledger, submitted_names}
use cpdn_control.Upload.Delivery.{submitted_as, handed_over, entered, Abandoned, ended_in}
use cpdn_control.Upload.Contract.{
  IsScheduled, sent, given_up, is_due, process_scheduled_upload-IsScheduled,
}
use cpdn_control.Upload.Finalized.{IsFinalized}
use cpdn_control.Upload.Final.{
  finalize_remaining_uploads-IsFinalized, finalize_remaining_uploads-disabled,
}

-- The uploads of all numbers from `first` up to `number`, that one excluded, are among `names`.
abbrev pub Covers : ℤ → ℤ → List Bytes → Type 0
Covers first number names = (i : ℤ) → first ≤ℤ i → i <ℤ number → Memᴰ (logical_upload_name i) names

Covers-next :
    (first number : ℤ) (names : List Bytes)
    → Covers first number names
    → Covers first (number +ℤ pos 1) (logical_upload_name number ∷ names)
Covers-next first number names c i low high = go (number_cases i number high)
  where
    number_cases : (i number : ℤ) → i <ℤ (number +ℤ pos 1) → (i ≡ number) ⊎ (i <ℤ number)
    number_cases i number h = ground (arith, +ℤ_parts number (pos 1), eq_of_parts i number)

    go :
        (i ≡ number) ⊎ (i <ℤ number)
        → Memᴰ (logical_upload_name i) (logical_upload_name number ∷ names)
    go (inl e) = Memᴰ.head (ap logical_upload_name e)
    go (inr h) = Memᴰ.tail (c i low h)

abbrev CoversLedger : ℤ → Ledger → Type 0
CoversLedger first l = Covers first l.task.upload_file_number l.names

Abandoned-Covers :
    (first number : ℤ) (l l' : Ledger)
    → Abandoned number l l'
    → CoversLedger first l
    → CoversLedger first l'
Abandoned-Covers first number l l' (inl e) c = subst (CoversLedger first) (sym e) c
Abandoned-Covers first number l l' (inr e) c =
    subst (CoversLedger first) (sym e) (λ i low high. Memᴰ.tail (c i low high))

submitted_by :
    (u : UploadManager) (number : ℤ) (l v : Ledger)
    → u.standalone ≡ false
    → v ≡ handed_over u number l
    → v ≡ submitted_as number l
submitted_by u number l v s e = e ∙ ap (λ b. if b then l else submitted_as number l) s

IsScheduled-Covers :
    (first : ℤ) (u : UploadManager) (observed_step : ℤ) (r : UploadOperationResult) (l l' : Ledger)
    → u.standalone ≡ false
    → IsScheduled u observed_step l r l'
    → CoversLedger first l
    → CoversLedger first l'
IsScheduled-Covers first u s r l l' off (sent v e) c =
    subst (λ names. Covers first (l.task.upload_file_number +ℤ pos 1) names)
      (ap (λ (l : Ledger). l.names) (sym (submitted_by u _ _ v off e)))
      (Covers-next first l.task.upload_file_number l.names c)
IsScheduled-Covers first u s r l l' off (given_up r' v q a) c =
    Abandoned-Covers first l.task.upload_file_number (entered l) v a c

IsFinalized-Covers :
    (first : ℤ) (u : UploadManager) (rounds : ℕ) (index : ℤ) (r : UploadOperationResult)
    (l l' : Ledger)
    → u.standalone ≡ false
    → IsFinalized u rounds index r l l'
    → l.task.upload_file_number ≡ index
    → CoversLedger first l
    → CoversLedger first l'
IsFinalized-Covers first u zero index r l l' off (q, e) n c = subst (CoversLedger first) (sym e) c
IsFinalized-Covers first u (suc rounds) index r l l' off (inl (v, e, f)) n c =
    IsFinalized-Covers first u rounds (index +ℤ pos 1) r _ l' off f refl (
      subst (λ names. Covers first (index +ℤ pos 1) names)
        (ap (λ (l : Ledger). l.names) (sym (submitted_by u index l v off e)))
        (Covers-next first index l.names (subst (λ n. Covers first n l.names) n c)))
IsFinalized-Covers first u (suc rounds) index r l l' off (inr (q, v, e, a)) n c =
    subst (CoversLedger first) (sym e) (Abandoned-Covers first index l v a c)

-- What an action may do to the uploads: the next number, and the names submitted.
pub record Uploads : Type 0 where
  pub number : ℤ
  pub names : List Bytes

abbrev pub uploads : World → Uploads
uploads w = record { number = w.task.upload_file_number; names = submitted_names w.history }

-- All events but an upload.
abbrev IsElse : Event → Type 0
IsElse (submitted name) = ⊥
IsElse _ = Unit

uploads-event :
    (e : Event) (w : World) → IsElse e → uploads (with_history w (e ∷ w.history)) ≡ uploads w
uploads-event (submitted name) w q = elim q [ ]
uploads-event _ w q = refl

IsQuiet-IsElse : (e : Event) → IsQuiet e → IsElse e
IsQuiet-IsElse began_critical_section q = tt
IsQuiet-IsElse ended_critical_section q = tt
IsQuiet-IsElse (submitted name) q = q
IsQuiet-IsElse (finished code) q = tt
IsQuiet-IsElse _ q = tt

pub uploads-IsBlind : IsBlind uploads
uploads-IsBlind = record {
  quiet = λ e w q. uploads-event e w (IsQuiet-IsElse e q);
  status = λ s w. refl;
  child = λ c w. refl;
}

pub uploads-emit : (e : Event) → IsElse e → Leaves uploads (emit e)
unfolding emit
uploads-emit e q = record { at = λ w w' a p. ap uploads (sym (ended_in p)) ∙ uploads-event e w q }

pub uploads-call :
    {A : Type 0} (answer : History → A) (e : Event) → IsElse e → Leaves uploads (call answer e)
unfolding call
uploads-call answer e q = record {
  at = λ w w' a p. ap uploads (sym (ended_in p)) ∙ uploads-event e w q;
}

pub ruleset uploads_rules = (leaves_rules, uploads-IsBlind, uploads-emit, uploads-call)

abbrev CoversAt : ℤ → Uploads → Type 0
CoversAt first x = Covers first x.number x.names

-- Wherever `m` ends that begins with the next number `n`, the uploads stay covered.
pub record KeepsFrom {A : Type 0} (first n : ℤ) (m : M A) : Type 0 where
  pub at :
      (w w' : World) (a : A)
      → w.task.upload_file_number ≡ n
      → m w ≡ some (a, w')
      → CoversAt first (uploads w)
      → CoversAt first (uploads w')

abbrev pub Keeps : {A : Type 0} → ℤ → M A → Type 0
Keeps first m = (n : ℤ) → KeepsFrom first n m

module _ (first : ℤ) where
  pub Keeps-Leaves : {A : Type 0} (n : ℤ) (m : M A) → Leaves uploads m → KeepsFrom first n m
  Keeps-Leaves n m l = record {
    at = λ w w' a p e c. subst (CoversAt first) (sym (l.at w w' a e)) c;
  }

  pub Keeps-bind :
      {A B : Type 0} (n : ℤ) (m : M A) (k : A → M B)
      → KeepsFrom first n m
      → ((a : A) → Keeps first (k a))
      → KeepsFrom first n (m >>= k)
  Keeps-bind n m k h g = record {
    at = λ w w' b p e c.
        let (a, v, q, r) = >>=-eq-some m k w w' b e in
        (g a v.task.upload_file_number).at v w' b refl r (h.at w v a p q c);
  }

  -- Behind an action that leaves the uploads alone the next number is the same.
  pub Keeps-after :
      {A B : Type 0} (n : ℤ) (m : M A) (k : A → M B)
      → Leaves uploads m
      → ((a : A) → KeepsFrom first n (k a))
      → KeepsFrom first n (m >>= k)
  Keeps-after n m k l g = record {
    at = λ w w' b p e c.
        let (a, v, q, r) = >>=-eq-some m k w w' b e in
        let same = l.at w v a q in
        (g a).at v w' b (ap (λ (x : Uploads). x.number) same ∙ p) r
          (subst (CoversAt first) (sym same) c);
  }

  pub Keeps-get_task :
      {B : Type 0} (n : ℤ) (k : TaskState → M B)
      → ((t : TaskState) → t.upload_file_number ≡ n → KeepsFrom first n (k t))
      → KeepsFrom first n (get_task >>= k)
  unfolding ◌>>=◌ get_task
  Keeps-get_task n k g = record { at = λ w w' b p e c. (g w.task p).at w w' b p e c }

  pub Keeps-put_task :
      (n : ℤ) (t : TaskState) → t.upload_file_number ≡ n → KeepsFrom first n (put_task t)
  unfolding put_task
  Keeps-put_task n t same = record {
    at = λ w w' a p e c.
        subst (λ (v : World). CoversAt first (uploads v)) (ended_in e)
          (subst (λ number. Covers first number (submitted_names w.history)) (p ∙ sym same) c);
  }

  pub Keeps-if :
      {A : Type 0} (n : ℤ) (b : Bool) (x y : M A)
      → KeepsFrom first n x
      → KeepsFrom first n y
      → KeepsFrom first n (if b then x else y)
  Keeps-if n true x y h k = h
  Keeps-if n false x y h k = k

  module _ (o : Outside) (u : UploadManager) (managed : u.standalone ≡ false) where
    pub process_scheduled_upload-Keeps :
        (fuel : ℕ) (step : ℤ) → Keeps first (process_scheduled_upload o u fuel step)
    process_scheduled_upload-Keeps fuel step n = record {
      at = λ w w' r p e c.
          go w w' r c (is_due o u step w.task.last_upload_step)
            (process_scheduled_upload-IsScheduled o u fuel step w w' r e);
    }
      where
        go :
            (w w' : World) (r : UploadOperationResult)
            → CoversAt first (uploads w)
            → (due : Bool)
            → if due
              then IsScheduled u step (ledger w) r (ledger w')
              else ((r ≡ succeeded) × (w' ≡ w))
            → CoversAt first (uploads w')
        go w w' r c true h = IsScheduled-Covers first u step r (ledger w) (ledger w') managed h c
        go w w' r c false h = subst (λ (v : World). CoversAt first (uploads v)) (sym h.1) c

    pub finalize_remaining_uploads-Keeps :
        (fuel : ℕ) (step : ℤ) (logs allow : Bool)
        → Keeps first (finalize_remaining_uploads o u fuel step logs allow)
    finalize_remaining_uploads-Keeps fuel step logs allow n = record {
      at = λ w w' r p e c. elim (Bool-cases (uploads_enabled u)) [
        | inl on ↦
            IsFinalized-Covers first u _ w.task.upload_file_number r (entered (ledger w))
              (ledger w') managed
              (finalize_remaining_uploads-IsFinalized o u fuel step logs allow w w' r e on) refl c
        | inr off ↦
            subst (λ (v : World). CoversAt first (uploads v))
              (finalize_remaining_uploads-disabled o u fuel step logs allow w w' r e off) c
      ];
    }
