-- ===== src/Collaborators/Runs.antt =====
-- The shares of every song over all runs of CollaborationService.ts.
use audio_block_backend.Base.{
  ℕ, refl, inl, inr, Option, List, [], arith, String, Bool-cases, Option-cases, find_row,
  count_rows, str_eq,
}
use audio_block_backend.Collaborators.{
  SongCollaborator, Song, AddCollaboratorInput, add_collaborator, is_active_of, update_collaborator,
  set_dispute, dispute_split, resolve_dispute, DisputeStatus, AppError, get_song,
}
use audio_block_backend.Collaborators.Shares.{Fair, given_nil}
use audio_block_backend.Collaborators.Changes.{replace-Fair, add_collaborator-Fair}
use audio_block_backend.Collaborators.Updates.{update_collaborator-Fair}

set_dispute-Fair :
    (status : DisputeStatus) (error : AppError) (song user : String) (rows : List SongCollaborator)
    → Fair rows
    → Fair (set_dispute status error song user rows).1
unfolding set_dispute
set_dispute-Fair status error song user rows v =
    elim (Option-cases (find_row (is_active_of song user) rows)) [
      | inl e ↦ rw (e, set_dispute) v
      | inr (c, e) ↦
          rw (e, set_dispute)
            (replace-Fair song user c (record c { dispute_status = status }) rows v e refl refl refl
              (inl refl))
    ]

-- A change of a song's collaborators.
pub data Step (rows : List SongCollaborator) : List SongCollaborator → Type 0 where
  adds :
      (song requester : String) (input : AddCollaboratorInput) (songs : List Song)
      → Step rows (add_collaborator song requester input songs rows).1
  updates :
      (song target requester : String) (role : Option String) (share : Option ℕ) (songs : List Song)
      → Step rows (update_collaborator song target requester role share songs rows).1
  disputes :
      (song requester : String) (songs : List Song)
      → Step rows (dispute_split song requester songs rows).1
  resolves :
      (song target requester : String) (songs : List Song)
      → Step rows (resolve_dispute song target requester songs rows).1

pub data Reach : List SongCollaborator → Type 0 where
  begin : Reach []
  next : {rows rows' : List SongCollaborator} → Reach rows → Step rows rows' → Reach rows'

dispute_split-Fair :
    (song requester : String) (songs : List Song) (rows : List SongCollaborator)
    → Fair rows
    → Fair (dispute_split song requester songs rows).1
unfolding dispute_split
dispute_split-Fair song requester songs rows v = elim (Option-cases (get_song song songs)) [
  | inl e ↦ rw (e, dispute_split) v
  | inr (x, e) ↦ rw (e, dispute_split) (set_dispute-Fair _ _ song requester rows v)
]

resolve_dispute-Fair :
    (song target requester : String) (songs : List Song) (rows : List SongCollaborator)
    → Fair rows
    → Fair (resolve_dispute song target requester songs rows).1
unfolding resolve_dispute
resolve_dispute-Fair song target requester songs rows v =
    elim (Option-cases (get_song song songs)) [
      | inl e ↦ rw (e, resolve_dispute) v
      | inr (x, e) ↦ elim (Bool-cases (str_eq x.artist_id requester)) [
        | inl f ↦ rw (e, f, resolve_dispute) (set_dispute-Fair _ _ song target rows v)
        | inr f ↦ rw (e, f, resolve_dispute) v
      ]
    ]

Step-Fair : {rows rows' : List SongCollaborator} → Step rows rows' → Fair rows → Fair rows'
Step-Fair {rows} (adds song requester input songs) v =
    add_collaborator-Fair song requester input songs rows v
Step-Fair {rows} (updates song target requester role share songs) v =
    update_collaborator-Fair song target requester role share songs rows v
Step-Fair {rows} (disputes song requester songs) v = dispute_split-Fair song requester songs rows v
Step-Fair {rows} (resolves song target requester songs) v =
    resolve_dispute-Fair song target requester songs rows v

nobody-Fair : Fair []
unfolding count_rows
nobody-Fair = record {
  unique = λ song user. omega arith;
  within = λ song. omega (arith, given_nil song);
}

-- Whatever is called by whomever, a user has one row of a song at most, and the shares of the active
-- collaborators of each song sum up to 100% and the tolerance of 0.01% at most.
pub Reach-Fair : {rows : List SongCollaborator} → Reach rows → Fair rows
Reach-Fair begin = nobody-Fair
Reach-Fair (next r s) = Step-Fair s (Reach-Fair r)
