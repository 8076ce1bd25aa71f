-- ===== src/Merge/Reference.antt =====
-- How `parseDockerImage` reads an image reference.
use abctl.Common.{
  String, ◌≡◌, refl, ◌++◌, append_assoc, cut-append, cut_of_Lacks, cut_last-append,
  cut_last_of_Lacks, Lacks, Lacks-append,
}
use abctl.Merge.{parse_docker_image}

module _ (dir name : String) (no_slash : Lacks b'/' name) (no_colon : Lacks b':' name) where
  -- A reference with a tag, `dir/name:tag` or `name:tag`, is split before its tag, also where `dir`
  -- names a port. The name has neither a slash nor a colon, and the tag no slash.
  pub parse_docker_image-tagged :
      (tag : String)
      → Lacks b'/' tag
      → (parse_docker_image (dir ++ ("/" ++ (name ++ (":" ++ tag)))) ≡ (dir ++ ("/" ++ name), tag))
        × (parse_docker_image (name ++ (":" ++ tag)) ≡ (name, tag))
  unfolding parse_docker_image
  parse_docker_image-tagged tag h =
      let tagged = Lacks-append b'/' name (":" ++ tag) no_slash (refl, h) in
      (
        rw (cut_last-append "/" dir (name ++ (":" ++ tag)) tagged)
            (rw (cut-append ":" name tag no_colon) (rw (append_assoc dir "/" name) refl)),
        rw (cut_last_of_Lacks b'/' (name ++ (":" ++ tag)) tagged)
            (rw (cut-append ":" name tag no_colon) refl),
      )

  -- A reference `dir/name` with no tag is the tag "latest" of the whole.
  pub parse_docker_image-untagged :
      parse_docker_image (dir ++ ("/" ++ name)) ≡ (dir ++ ("/" ++ name), "latest")
  unfolding parse_docker_image
  parse_docker_image-untagged =
      rw (cut_last-append "/" dir name no_slash) (rw (cut_of_Lacks b':' name no_colon) refl)
