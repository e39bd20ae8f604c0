-- ===== src/Composer/Sending.antt =====
-- MessageInput.tsx: what a submission sends, and what it leaves in the field.
use together.Base.{ℕ, ◌<◌, ◌≡◌, refl, some, List, [], length, arith, returned, thrown, Failure}
use together.Composer.{Composer, PendingFile, submission, handle_submit}

submission-sent :
    (s : Composer) (sent : List ℕ × List PendingFile)
    → submission s ≡ some sent
    → (0 < length sent.0) × (sent.1 ≡ s.pending_files)
unfolding submission
submission-sent s sent h = ground (arith, h)

-- What is submitted holds at least one unit and all the files. If the server takes it, text, files and pickers are
-- cleared, also what has been typed and attached meanwhile; if it refuses, all stays as it is by then.
submission_clears_meanwhile :
    (meanwhile : Composer → Composer) (err : Failure) (s : Composer)
    (sent : List ℕ × List PendingFile)
    → submission s ≡ some sent
    → (0 < length sent.0)
      × (sent.1 ≡ s.pending_files)
      × ((handle_submit meanwhile (returned tt) s).content ≡ [])
      × ((handle_submit meanwhile (returned tt) s).pending_files ≡ [])
      × (handle_submit meanwhile (thrown err) s ≡ meanwhile s)
unfolding handle_submit
submission_clears_meanwhile meanwhile err s sent h =
    let (some_text, all_files) = submission-sent s sent h in
    (
      some_text,
      all_files,
      rw (handle_submit, h) refl,
      rw (handle_submit, h) refl,
      rw (handle_submit, h) refl,
    )
