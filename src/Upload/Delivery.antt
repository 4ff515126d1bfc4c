-- ===== src/Upload/Delivery.antt =====
-- What sending one upload does to the ledger (src/upload_manager.cpp).
use cpdn_control.Prelude.{
  ℕ, suc, ◌≡◌, refl, sym, ap, ◌∙◌, ◌⊎◌, inl, inr, Bool, true, false, Option, none, some, List, [],
  ◌∷◌, ℤ, pos, if◌then◌else◌,
}
use cpdn_control.Text.{Bytes}
use mathlib.Core.Path.{subst}
use cpdn_control.World.{FilePath, Outside, World, M, ◌>>=◌, pure, call, emit, get_task, put_task}
use cpdn_control.World.Leaves.{Leaves-get_status}
use cpdn_control.Upload.{
  UploadManager, UploadOperationResult, succeeded, failed_with, UploadSendResult,
  logical_upload_name, ensure_nonempty_upload_payload, create_upload_placeholder_file,
}
use cpdn_control.Upload.Send.{submit_upload, zip_and_send_upload}
use cpdn_control.Upload.Process.{sent_scheduled, leave_with, send_one, mark_scheduled}
use cpdn_control.Upload.Ledger.{
  Ledger, ledger, ledger-IsBlind, Gives, Gives-after, Gives-if, Gives-pure, Gives-then,
  Gives-weaken, Leaves-zip_and_delete, Leaves-wait_before_upload,
}

abbrev pub submitted_as : ℤ → Ledger → Ledger
submitted_as number l = record l { names = logical_upload_name number ∷ l.names }

-- An upload that succeeded: a standalone run hands nothing over.
abbrev pub handed_over : UploadManager → ℤ → Ledger → Ledger
handed_over u number l = if u.standalone then l else submitted_as number l

abbrev pub left : Ledger → Ledger
left l = record l { ended = suc l.ended }

abbrev pub entered : Ledger → Ledger
entered l = record l { begun = suc l.begun }

-- The ledger after an upload that failed: it may have been submitted, and refused.
abbrev pub Abandoned : ℤ → Ledger → Ledger → Type 0
Abandoned number l l' = (l' ≡ l) ⊎ (l' ≡ submitted_as number l)

abbrev pub SentOrNot : UploadManager → ℤ → Bool → Ledger → Ledger → Type 0
SentOrNot u number true l l' = l' ≡ handed_over u number l
SentOrNot u number false l l' = Abandoned number l l'

-- An operation that sends one upload: it fails, or goes on as `Rest` says.
abbrev pub OneThen :
    UploadManager
    → ℤ
    → (UploadOperationResult → Ledger → Ledger → Type 0)
    → UploadOperationResult
    → Ledger
    → Ledger
    → Type 0
OneThen u number Rest r l l' =
    ((v : Ledger) × (v ≡ handed_over u number l) × Rest r v l')
    ⊎ ((r.ok ≡ false) × (v : Ledger) × (l' ≡ left v) × Abandoned number l v)

-- Two equal ends of an action: the worlds, and the answers.
pub ended_in :
    {A : Type 0} {a b : A} {v w : World}
    → ◌≡◌ {A = Option (A × World)} (some (a, v)) (some (b, w))
    → v ≡ w
ended_in e = cc

pub gave :
    {A : Type 0} {a b : A} {v w : World}
    → ◌≡◌ {A = Option (A × World)} (some (a, v)) (some (b, w))
    → a ≡ b
gave e = cc

submitted-SentOrNot :
    (u : UploadManager) (number : ℤ) (ok : Bool) (l l' : Ledger)
    → u.standalone ≡ false
    → l' ≡ submitted_as number l
    → SentOrNot u number ok l l'
submitted-SentOrNot u number true l l' s e = cc
submitted-SentOrNot u number false l l' s e = inr e

standalone-SentOrNot :
    (u : UploadManager) (number : ℤ) (ok : Bool) (l : Ledger)
    → ok ≡ true
    → u.standalone ≡ true
    → SentOrNot u number ok l l
standalone-SentOrNot u number true l q s = cc
standalone-SentOrNot u number false l q s = inl refl

failed-SentOrNot :
    (u : UploadManager) (number : ℤ) (ok : Bool) (l : Ledger)
    → ok ≡ false
    → SentOrNot u number ok l l
failed-SentOrNot u number true l q = cc
failed-SentOrNot u number false l q = inl refl

-- Files to zip are at hand, or there are none at all.
abbrev IsPayload : Option (List FilePath) → Type 0
IsPayload none = Unit
IsPayload (some []) = ⊥
IsPayload (some (f ∷ fs)) = Unit

abbrev GoesOn :
    (UploadOperationResult → Ledger → Ledger → Type 0)
    → Bool
    → UploadOperationResult
    → Ledger
    → Ledger
    → Type 0
GoesOn Rest true r v l' = Rest r v l'
GoesOn Rest false r v l' = (r.ok ≡ false) × (l' ≡ left v)

OneThen-sent :
    (u : UploadManager) (number : ℤ) (Rest : UploadOperationResult → Ledger → Ledger → Type 0)
    (ok : Bool) (r : UploadOperationResult) (l v l' : Ledger)
    → SentOrNot u number ok l v
    → GoesOn Rest ok r v l'
    → OneThen u number Rest r l l'
OneThen-sent u number Rest true r l v l' s g = inl (v, s, g)
OneThen-sent u number Rest false r l v l' s g = inr (g.0, v, g.1, s)

module _ (o : Outside) (u : UploadManager) where
  submit_upload-Gives :
      (number : ℤ)
      → u.standalone ≡ false
      → Gives ledger (λ (r : UploadSendResult). SentOrNot u number r.ok) (submit_upload o u number)
  unfolding submit_upload ◌>>=◌ call
  submit_upload-Gives number s = record {
    at = λ w w' a e.
        submitted-SentOrNot u number a.ok (ledger w) (ledger w') s (ap ledger (sym (ended_in e)));
  }

  standalone-Gives :
      (number : ℤ) (r : UploadSendResult)
      → r.ok ≡ true
      → u.standalone ≡ true
      → Gives ledger (λ (r : UploadSendResult). SentOrNot u number r.ok) (pure r)
  standalone-Gives number r q s = Gives-pure r λ x. standalone-SentOrNot u number r.ok x q s

  failed_send-Gives :
      (number : ℤ) (r : UploadSendResult)
      → r.ok ≡ false
      → Gives ledger (λ (r : UploadSendResult). SentOrNot u number r.ok) (pure r)
  failed_send-Gives number r q = Gives-pure r λ x. failed-SentOrNot u number r.ok x q

  zip_and_send_upload-Gives :
      (fuel : ℕ) (number : ℤ) (f : FilePath) (fs : List FilePath) (allow : Bool)
      → Gives ledger
          (λ (r : UploadSendResult). SentOrNot u number r.ok)
          (zip_and_send_upload o u fuel number (f ∷ fs) allow)
  unfolding zip_and_send_upload
  zip_and_send_upload-Gives fuel number f fs allow =
      search
        (
          Gives-after, Gives-if, failed_send-Gives, standalone-Gives, submit_upload-Gives,
          Leaves-get_status, Leaves-zip_and_delete, Leaves-wait_before_upload, ledger-IsBlind,
        )
        depth 14

  pub leave_with-Gives :
      (r : UploadOperationResult)
      → Gives ledger (λ a l l'. (a ≡ r) × (l' ≡ left l)) (leave_with o u r)
  unfolding leave_with ◌>>=◌ emit
  leave_with-Gives r = record { at = λ w w' a e. (sym (gave e), ap ledger (sym (ended_in e))) }

  pub mark_scheduled-Gives :
      (observed_step : ℤ)
      → Gives ledger
          (λ a l l'.
            (a ≡ succeeded) × (l' ≡ left (record l { task = sent_scheduled observed_step l.task })))
          (mark_scheduled o u observed_step)
  unfolding mark_scheduled leave_with ◌>>=◌ emit get_task put_task
  mark_scheduled-Gives observed_step = record {
    at = λ w w' a e. (sym (gave e), ap ledger (sym (ended_in e)));
  }

  GoesOn-Gives :
      (ok : Bool) (code : ℤ) (mark : M UploadOperationResult)
      (Rest : UploadOperationResult → Ledger → Ledger → Type 0)
      → Gives ledger Rest mark
      → Gives ledger (GoesOn Rest ok) (if ok then mark else leave_with o u (failed_with code))
  GoesOn-Gives true code mark Rest g = g
  GoesOn-Gives false code mark Rest g =
      Gives-weaken (λ a x y q. (ap (λ (r : UploadOperationResult). r.ok) q.0, q.1))
        (leave_with-Gives (failed_with code))

  create_upload_placeholder_file-Gives :
      (number step : ℤ) (reason : Bytes)
      → Gives ledger
          (λ a l l'. l' ≡ l)
          (create_upload_placeholder_file o number step u.total_steps reason)
  unfolding create_upload_placeholder_file ◌>>=◌ call
  create_upload_placeholder_file-Gives number step reason = record {
    at = λ w w' a e. ap ledger (sym (ended_in e));
  }

  placeholder-IsPayload :
      (p : Option FilePath) → IsPayload (elim p [ none ↦ none | some p ↦ some (p ∷ []) ])
  placeholder-IsPayload none = tt
  placeholder-IsPayload (some p) = tt

  ensure_nonempty_upload_payload-Gives :
      (number step : ℤ) (reason : Bytes) (files : List FilePath)
      → Gives ledger
          (λ a l l'. IsPayload a × (l' ≡ l))
          (ensure_nonempty_upload_payload o u number step reason files)
  unfolding ensure_nonempty_upload_payload
  ensure_nonempty_upload_payload-Gives number step reason [] =
      Gives-then (λ p a x y. IsPayload a × (y ≡ x)) _ _
        (create_upload_placeholder_file-Gives number step reason)
        (λ p. Gives-pure _ λ x. (placeholder-IsPayload p, refl)) (λ p a x y z q r. (r.0, r.1 ∙ q))
  ensure_nonempty_upload_payload-Gives number step reason (f ∷ fs) = Gives-pure _ λ x. (tt, refl)

  -- The last part of `send_one`.
  send_rest-Gives :
      (fuel : ℕ) (number : ℤ) (allow : Bool) (mark : M UploadOperationResult)
      (Rest : UploadOperationResult → Ledger → Ledger → Type 0) (payload : Option (List FilePath))
      → Gives ledger Rest mark
      → Gives ledger
          (λ r l l'. IsPayload payload → OneThen u number Rest r l l')
          (elim payload [
            | none ↦ leave_with o u (failed_with (pos 1))
            | some upload_files ↦
                zip_and_send_upload o u fuel number upload_files allow >>= λ result.
                if result.ok then mark else leave_with o u (failed_with result.finish_code)
          ])
  send_rest-Gives fuel number allow mark Rest none g =
      Gives-weaken
        (λ a x y q t. inr (ap (λ (r : UploadOperationResult). r.ok) q.0, x, q.1, inl refl))
        (leave_with-Gives (failed_with (pos 1)))
  send_rest-Gives fuel number allow mark Rest (some []) g = record { at = λ w w' a e t. elim t [ ] }
  send_rest-Gives fuel number allow mark Rest (some (f ∷ fs)) g =
      Gives-then (λ sent. GoesOn Rest sent.ok) _ _
        (zip_and_send_upload-Gives fuel number f fs allow)
        (λ sent. GoesOn-Gives sent.ok sent.finish_code mark Rest g)
        (λ sent r x y z s t p. OneThen-sent u number Rest sent.ok r x y z s t)

  pub send_one-Gives :
      (fuel : ℕ) (number step : ℤ) (reason : Bytes) (files : List FilePath) (allow : Bool)
      (mark : M UploadOperationResult) (Rest : UploadOperationResult → Ledger → Ledger → Type 0)
      → Gives ledger Rest mark
      → Gives ledger (OneThen u number Rest) (send_one o u fuel number step reason files allow mark)
  unfolding send_one
  send_one-Gives fuel number step reason files allow mark Rest g =
      Gives-then (λ payload r l l'. IsPayload payload → OneThen u number Rest r l l') _ _
        (ensure_nonempty_upload_payload-Gives number step reason files)
        (λ payload. send_rest-Gives fuel number allow mark Rest payload g)
        (λ payload r x y z p q. subst (λ x. OneThen u number Rest r x z) p.1 (q p.0))
