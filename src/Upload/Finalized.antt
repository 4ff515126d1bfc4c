-- ===== src/Upload/Finalized.antt =====
-- The loop of `finalize_remaining_uploads` (src/upload_manager.cpp) as a relation on ledgers.
use cpdn_control.Prelude.{
  ℕ, zero, suc, ◌≡◌, refl, sym, ap, ◌∙◌, ◌⊎◌, inl, inr, true, false, List, ◌∷◌, ℤ, pos, ◌+ℤ◌,
  +ℤ-suc, +ℤ-zero, ◌<◌, arith,
}
use cpdn_control.Text.{Bytes}
use cpdn_control.World.{TaskState}
use cpdn_control.Upload.{UploadManager, UploadOperationResult, succeeded, logical_upload_name}
use cpdn_control.Upload.Process.{sent_final}
use cpdn_control.Upload.Ledger.{Ledger}
use cpdn_control.Upload.Delivery.{handed_over, left, Abandoned, OneThen}

-- The final uploads from `index`, `rounds` of them: a round sends its upload and goes on.
abbrev pub IsFinalized : UploadManager → ℕ → ℤ → UploadOperationResult → Ledger → Ledger → Type 0
IsFinalized u zero index r l l' = (r ≡ succeeded) × (l' ≡ left l)
IsFinalized u (suc rounds) index r l l' =
    OneThen u index
      (λ r v l'.
        IsFinalized u rounds (index +ℤ pos 1) r (record v { task = sent_final index v.task }) l')
      r l l'

-- The names of the uploads from `index`, `n` of them, before `names`, the latest first.
abbrev pub names_from : ℤ → ℕ → List Bytes → List Bytes
names_from index zero names = names
names_from index (suc n) names = names_from (index +ℤ pos 1) n (logical_upload_name index ∷ names)

abbrev pub IsComplete : ℕ → ℤ → Ledger → Ledger → Type 0
IsComplete rounds index l l' =
    (l'.task.upload_file_number ≡ index +ℤ pos rounds)
    × (l'.names ≡ names_from index rounds l.names)

handed_over-keeps :
    (u : UploadManager) (number : ℤ) (l v : Ledger)
    → v ≡ handed_over u number l
    → (v.begun ≡ l.begun) × (v.ended ≡ l.ended) × (v.task ≡ l.task)
handed_over-keeps u number l v e = ground arith

handed_over-names :
    (u : UploadManager) (number : ℤ) (l v : Ledger)
    → u.standalone ≡ false
    → v ≡ handed_over u number l
    → v.names ≡ logical_upload_name number ∷ l.names
handed_over-names u number l v s e = ground arith

Abandoned-names :
    (number : ℤ) (l v : Ledger)
    → Abandoned number l v
    → (v.names ≡ l.names) ⊎ (v.names ≡ logical_upload_name number ∷ l.names)
Abandoned-names number l v (inl e) = inl (ap (λ (l : Ledger). l.names) e)
Abandoned-names number l v (inr e) = inr (ap (λ (l : Ledger). l.names) e)

Abandoned-keeps :
    (number : ℤ) (l v : Ledger)
    → Abandoned number l v
    → (v.begun ≡ l.begun) × (v.ended ≡ l.ended) × (v.task ≡ l.task)
Abandoned-keeps number l v (inl e) = ground arith
Abandoned-keeps number l v (inr e) = ground arith

pub IsFinalized-ok :
    (u : UploadManager) (rounds : ℕ) (index : ℤ) (r : UploadOperationResult) (l l' : Ledger)
    → IsFinalized u rounds index r l l'
    → r.ok ≡ true
    → u.standalone ≡ false
    → l.task.upload_file_number ≡ index
    → IsComplete rounds index l l'
IsFinalized-ok u zero index r l l' (q, e) ok s n = (
  ap (λ (l : Ledger). l.task.upload_file_number) e ∙ n ∙ sym (+ℤ-zero index),
  ap (λ (l : Ledger). l.names) e,
)
IsFinalized-ok u (suc rounds) index r l l' (inl (v, e, f)) ok s n =
    let (a, b) = IsFinalized-ok u rounds (index +ℤ pos 1) r _ l' f ok s refl in
    (
      a ∙ +ℤ-suc index rounds,
      b ∙ ap (names_from (index +ℤ pos 1) rounds) (handed_over-names u index l v s e),
    )
IsFinalized-ok u (suc rounds) index r l l' (inr f) ok s n = cc

-- A stop after `k` of the uploads: the next one may have been submitted and refused.
abbrev pub IsStoppedAt : ℤ → ℕ → Ledger → Ledger → Type 0
IsStoppedAt index k l l' =
    (l'.task.upload_file_number ≡ index +ℤ pos k)
    × ((l'.names ≡ names_from index k l.names)
        ⊎ (l'.names ≡ logical_upload_name (index +ℤ pos k) ∷ names_from index k l.names))

stopped_names :
    (index : ℤ) (k : ℕ) (l v l' : Ledger)
    → v.names ≡ logical_upload_name index ∷ l.names
    → (l'.names ≡ names_from (index +ℤ pos 1) k v.names)
      ⊎ (l'.names
          ≡ logical_upload_name ((index +ℤ pos 1) +ℤ pos k) ∷ names_from (index +ℤ pos 1) k v.names)
    → (l'.names ≡ names_from index (suc k) l.names)
      ⊎ (l'.names ≡ logical_upload_name (index +ℤ pos (suc k)) ∷ names_from index (suc k) l.names)
stopped_names index k l v l' p (inl b) = inl (b ∙ ap (names_from (index +ℤ pos 1) k) p)
stopped_names index k l v l' p (inr b) = inr (
    b
    ∙ ap
        (λ names.
          logical_upload_name ((index +ℤ pos 1) +ℤ pos k) ∷ names_from (index +ℤ pos 1) k names)
        p
    ∙ ap (λ i. logical_upload_name i ∷ names_from index (suc k) l.names) (+ℤ-suc index k))

stopped_names_now :
    (index : ℤ) (l v l' : Ledger)
    → l' ≡ left v
    → (v.names ≡ l.names) ⊎ (v.names ≡ logical_upload_name index ∷ l.names)
    → (l'.names ≡ l.names) ⊎ (l'.names ≡ logical_upload_name (index +ℤ pos 0) ∷ l.names)
stopped_names_now index l v l' e (inl p) = inl (ap (λ (l : Ledger). l.names) e ∙ p)
stopped_names_now index l v l' e (inr p) = inr (
    ap (λ (l : Ledger). l.names) e
    ∙ p
    ∙ ap (λ i. logical_upload_name i ∷ l.names) (sym (+ℤ-zero index)))

pub IsFinalized-stopped :
    (u : UploadManager) (rounds : ℕ) (index : ℤ) (r : UploadOperationResult) (l l' : Ledger)
    → IsFinalized u rounds index r l l'
    → r.ok ≡ false
    → u.standalone ≡ false
    → l.task.upload_file_number ≡ index
    → (k : ℕ) × (k < rounds) × IsStoppedAt index k l l'
IsFinalized-stopped u zero index r l l' (q, e) ok s n = cc
IsFinalized-stopped u (suc rounds) index r l l' (inl (v, e, f)) ok s n =
    let (k, lt, (a, b)) = IsFinalized-stopped u rounds (index +ℤ pos 1) r _ l' f ok s refl in
    let p = handed_over-names u index l v s e in
    let q = +ℤ-suc index k in (suc k, omega arith, (a ∙ q, stopped_names index k l v l' p b))
IsFinalized-stopped u (suc rounds) index r l l' (inr (q, v, e, a)) ok s n = (
  0,
  omega arith,
  (
    ap (λ (l : Ledger). l.task.upload_file_number) e
        ∙ ap (λ (t : TaskState). t.upload_file_number) (Abandoned-keeps index l v a).2
        ∙ n
        ∙ sym (+ℤ-zero index),
    stopped_names_now index l v l' e (Abandoned-names index l v a),
  ),
)

-- What the final uploads keep, and the number that they reach.
pub IsFinalized-kept :
    (u : UploadManager) (rounds : ℕ) (index : ℤ) (r : UploadOperationResult) (l l' : Ledger)
    → IsFinalized u rounds index r l l'
    → l.task.upload_file_number ≡ index
    → (l'.task.model_completed ≡ l.task.model_completed)
      × (l'.task.model_success ≡ l.task.model_success)
      × (r.ok ≡ true → l'.task.upload_file_number ≡ index +ℤ pos rounds)
IsFinalized-kept u zero index r l l' (q, e) n = (
  ap (λ (l : Ledger). l.task.model_completed) e,
  ap (λ (l : Ledger). l.task.model_success) e,
  λ ok. ap (λ (l : Ledger). l.task.upload_file_number) e ∙ n ∙ sym (+ℤ-zero index),
)
IsFinalized-kept u (suc rounds) index r l l' (inl (v, e, f)) n =
    let (a, b, c) = IsFinalized-kept u rounds (index +ℤ pos 1) r _ l' f refl in
    let k = (handed_over-keeps u index l v e).2 in
    (
      a ∙ ap (λ (t : TaskState). t.model_completed) k,
      b ∙ ap (λ (t : TaskState). t.model_success) k,
      λ ok. c ok ∙ +ℤ-suc index rounds,
    )
IsFinalized-kept u (suc rounds) index r l l' (inr (q, v, e, a)) n =
    let k = (Abandoned-keeps index l v a).2 in
    (
      ap (λ (l : Ledger). l.task.model_completed) e ∙ ap (λ (t : TaskState). t.model_completed) k,
      ap (λ (l : Ledger). l.task.model_success) e ∙ ap (λ (t : TaskState). t.model_success) k,
      λ ok. absurd cc,
    )

pub IsFinalized-sections :
    (u : UploadManager) (rounds : ℕ) (index : ℤ) (r : UploadOperationResult) (l l' : Ledger)
    → IsFinalized u rounds index r l l'
    → (l'.begun ≡ l.begun) × (l'.ended ≡ suc l.ended)
IsFinalized-sections u zero index r l l' (q, e) = ground arith
IsFinalized-sections u (suc rounds) index r l l' (inl (v, e, f)) = ground (
  arith,
  handed_over-keeps u index l v e,
  IsFinalized-sections u rounds (index +ℤ pos 1) r _ l' f,
)
IsFinalized-sections u (suc rounds) index r l l' (inr (q, v, e, a)) =
    ground (arith, Abandoned-keeps index l v a)
