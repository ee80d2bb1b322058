-- ===== src/Examples/ReactionRuns.antt =====
-- The theorems on src/greenline/store/reactions.py at a store with one message.
use greenline.Base.{◌≡◌, refl, true, codes}
use greenline.Reactions.{has_message_reactions, put_message_reaction}
use greenline.Reactions.Flag.{put-has_message_reactions}
use greenline.Contracts.Refinement.{Store}
use greenline.Examples.{ann, store}

abbrev reacted : Store
reacted = put_message_reaction ann (codes "m1") (codes "bob@s.whatsapp.net") (codes "+1") store

put-has_message_reactions_example : has_message_reactions ann (codes "m1") reacted ≡ true
put-has_message_reactions_example =
    put-has_message_reactions ann (codes "m1") (codes "bob@s.whatsapp.net") (codes "+1") store refl
      refl refl refl
