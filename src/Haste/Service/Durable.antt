-- ===== src/Haste/Service/Durable.antt =====
-- A document that was posted is never lost, whatever happens after it.
use potat_api.Base.{
  ◌≡◌, ◌≢◌, refl, sym, ap, ◌∙◌, String, false, Option, none, some, List, [], ◌∷◌, fault, str_eq,
  All, All-map,
}
use potat_api.Http.{Writer, new_writer, json}
use potat_api.Services.{Cache}
use potat_api.Haste.{Pastes, Answer, Task, document, created, get_haste}
use potat_api.Haste.Get.{as_json, handle_get}
use potat_api.Haste.Get.Laws.{fetch-finds}
use potat_api.Haste.Post.{Post, handle_post}
use potat_api.Haste.Post.Laws.{IsFilled}
use potat_api.Haste.Post.Stores.{handle_post-stored}
use potat_api.Haste.Service.{Service, Run}
use potat_api.Haste.Service.Kept.{IsKept, Run-IsKept}

module _ (c : Cache) (p : Pastes) (encode : String → String) (parse : String → Option String)
    (Foreign : String → Type 0) where
  -- A document that was posted is not lost. A post is answered 200 with a key while no other post
  -- stores under that key, nothing of the key is cached or about to be, and no limiter or other
  -- service writes it to Redis then or later. After that, and after any run of further posts, in
  -- which others come between the choice of a key and its storing, of reads, of cache fills that come
  -- late or never, of expiries, and of what others write to Redis, reading the key gives 200 and the
  -- text that was posted, if the key is not the empty one and the database answers. (It does not for
  -- a text that is not UTF-8.)
  pub handle_get-Run :
      (s t : Service c p) (req : Post) (draws : List (Option String)) (rows : p.State)
      (w : Writer Answer) (key text : String)
      → IsFilled p encode s.rows
      → handle_post p encode parse req draws s.rows new_writer ≡ some (w, rows)
      → w.status ≡ some 200
      → w.chunks ≡ json (created key) ∷ []
      → req.body ≡ some text
      → str_eq key "" ≡ false
      → c.contents key s.cache ≡ none
      → All (λ (e : Task). key ≢ e.key) s.tasks
      → (Foreign key → ⊥)
      → Run c p encode Foreign (record s { rows = rows }) t
      → (get_haste p encode key t.rows).0 ≢ fault
      → ((handle_get c p encode key t.cache t.rows new_writer).writer.status ≡ some 200)
        × ((handle_get c p encode key t.cache t.rows new_writer).writer.chunks
            ≡ json (document key text) ∷ [])
  unfolding handle_get
  handle_get-Run s t req draws rows w key text filled h good sent had given uncached apart alone
        later up =
      let (there, full) =
        handle_post-stored p encode parse req draws s.rows rows new_writer w text key refl refl
          filled h good sent had in
      let start : IsKept c p encode key text (record s { rows = rows }) = record {
        here = there;
        cached = λ v held. absurd (cc (uncached, held));
        due = All-map _ _ s.tasks (λ e other own. absurd (other own)) apart;
      } in
      let kept =
        Run-IsKept c p encode key text Foreign alone (record s { rows = rows }) t later start in
      rw given (
        fetch-finds c p encode as_json key text t.cache t.rows new_writer
          (λ v held. kept.here ∙ ap some (sym (kept.cached v held))) refl kept.here full up)
