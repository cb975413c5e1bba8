-- ===== src/Video/Cedar/Pictures/Queue.antt =====
-- No decoded picture is lost: `drain_picture` keeps it, shows it, or gives it back.
use openhd_glide.Base.{
  ℕ, ◌-◌, ◌≡◌, ◌≢◌, refl, sym, ap, ◌∙◌, ◌⊎◌, inl, inr, List, [], ◌∷◌, ◌++◌, Option, none, some,
  length, length-take, take, drop, take-append-drop, arith,
}
use openhd_glide.Video.Cedar.{Cedar, Library, VideoPicture}
use openhd_glide.Video.Cedar.Pictures.{
  DmabufVideoFrame, convert, report, write_frame, picture_to_frame, return_all, collect_pictures,
  show_next, drain_picture,
}

-- `shown` holds the picture that has become the current one. It is empty, and the current one stays,
-- only if there was one or if no picture is left in the queue.
abbrev pub IsShown : {S : Type 0} → Cedar S → Cedar S → List VideoPicture → Type 0
IsShown d d' shown =
    ((shown ≡ [])
      × (d'.current_picture ≡ d.current_picture)
      × ((d.current_picture ≢ none) ⊎ (d'.ready_pictures ≡ [])))
    ⊎ ((picture : VideoPicture) × (shown ≡ picture ∷ [])
        × (d.current_picture ≡ none)
        × (d'.current_picture ≡ some picture))

-- Where the pictures of the queue of `d` and the new `pictures` are in `d'`: the oldest have gone
-- back to the library, which was then in state `s`, all but six of them; then comes the one shown,
-- then the new queue.
pub record IsKept {S : Type 0} (lib : Library S) (s : S) (pictures : List VideoPicture)
    (d d' : Cedar S) : Type 0 where
  pub stale : List VideoPicture
  pub shown : List VideoPicture
  pub splits : d.ready_pictures ++ pictures ≡ stale ++ (shown ++ d'.ready_pictures)
  pub surplus : length stale ≡ length (d.ready_pictures ++ pictures) - 6
  pub returned : d'.library ≡ return_all lib stale s
  pub is_shown : IsShown d d' shown

-- The fields of the decoder that a conversion leaves as they are.
report-same :
    {S : Type 0} (d : Cedar S) (r : DmabufVideoFrame × Option ℕ)
    → ((report d r).0.library ≡ d.library)
      × ((report d r).0.ready_pictures ≡ d.ready_pictures)
      × ((report d r).0.current_picture ≡ d.current_picture)
unfolding report
report-same d (frame, none) = (refl, refl, refl)
report-same d (frame, some n) = (refl, refl, refl)

write_frame-same :
    {S : Type 0} (d : Cedar S) (picture : VideoPicture) (fd : Option ℕ) (frame : DmabufVideoFrame)
    → let d' = (write_frame d picture fd frame).0 in
      (d'.library ≡ d.library)
      × (d'.ready_pictures ≡ d.ready_pictures)
      × (d'.current_picture ≡ d.current_picture)
unfolding write_frame
write_frame-same d picture none frame = (refl, refl, refl)
write_frame-same d picture (some fd) frame = report-same d (convert picture fd picture.pixel_format)

show_next-IsKept :
    {S : Type 0} (lib : Library S) (s : S) (pictures stale queue : List VideoPicture)
    (d d' : Cedar S) (current : Option VideoPicture) (frame : DmabufVideoFrame)
    → d'.library ≡ return_all lib stale s
    → d.ready_pictures ++ pictures ≡ stale ++ queue
    → length stale ≡ length (d.ready_pictures ++ pictures) - 6
    → queue ≡ d'.ready_pictures
    → current ≡ d.current_picture
    → d'.current_picture ≡ d.current_picture
    → IsKept lib s pictures d (show_next d' current queue frame).0
unfolding show_next picture_to_frame
show_next-IsKept lib s pictures stale queue d d' (some p) frame r e n q c c' = record {
  stale = stale;
  shown = [];
  splits = e ∙ ap (◌++◌ stale) q;
  surplus = n;
  returned = r;
  is_shown = inl (refl, c', inl (λ k. cc (c, k)));
}
show_next-IsKept lib s pictures stale [] d d' none frame r e n q c c' = record {
  stale = stale;
  shown = [];
  splits = e ∙ ap (◌++◌ stale) q;
  surplus = n;
  returned = r;
  is_shown = inl (refl, c', inr (sym q));
}
show_next-IsKept {S} lib s pictures stale (p ∷ queue) d d' none frame r e n q c c' =
    let taken : Cedar S = record d' { current_picture = some p; ready_pictures = queue } in
    let (library, ready, current) = write_frame-same taken p p.buffer frame in
    record {
      stale = stale;
      shown = p ∷ [];
      splits = e ∙ ap (λ (xs : List VideoPicture). stale ++ (p ∷ xs)) (sym ready);
      surplus = n;
      returned = library ∙ r;
      is_shown = inr (p, refl, sym c, current);
    }

collected :
    {S : Type 0} (lib : Library S) (d : Cedar S) (r : S × List VideoPicture)
    (frame : DmabufVideoFrame)
    → let d' = collect_pictures lib d r in
      IsKept lib r.0 r.1 d (show_next d' d'.current_picture d'.ready_pictures frame).0
unfolding collect_pictures
collected lib d (s, pictures) frame =
    let queue = d.ready_pictures ++ pictures in
    show_next-IsKept lib s pictures (take (length queue - 6) queue) (drop (length queue - 6) queue)
      d (collect_pictures lib d (s, pictures)) d.current_picture frame refl
      (sym (take-append-drop (length queue - 6) queue))
      (omega (arith, length-take (length queue - 6) queue)) refl refl refl

-- What becomes of decoded pictures: of the queue and the pictures that the library has ready, in
-- order, the oldest are given back, just as many as there are more than six; then comes the one that
-- is shown, and then the new queue. One is shown if none was, unless no picture is left; if one was
-- shown already, it stays.
pub drain_picture-IsKept :
    {S : Type 0} (lib : Library S) (d : Cedar S) (frame : DmabufVideoFrame)
    → let r = lib.request_pictures d.library in IsKept lib r.0 r.1 d (drain_picture lib d frame).0
unfolding drain_picture
drain_picture-IsKept lib d frame = collected lib d (lib.request_pictures d.library) frame
