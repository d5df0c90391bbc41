-- ===== src/Scenarios/Players.antt =====
-- Runs of the whole player.
use adaptive_advertisement.Common.{true, none, some, []}
use adaptive_advertisement.Player.Fallback.{FallbackBundle, builtin, image}
use adaptive_advertisement.Player.Node.{fallback_asset, Renderer, Player}
use adaptive_advertisement.Player.Node.NeverBlank.{command, step}
use adaptive_advertisement.Scenarios.Commands.{at, handler, play_lobby}

abbrev works : Renderer
works = record { plays = λ i. true; shows = λ p. true }

abbrev slate : FallbackBundle
slate = record { asset_path = some "/assets/slate.png"; asset_type = some image; source = builtin }

abbrev started : Player
started = record {
  handler = handler;
  bundle = slate;
  screen = fallback_asset "/assets/slate.png";
  prev_manifest_id = none;
  events = [];
}

abbrev playing : Player
playing = (step works (command (at 10) play_lobby) started).0
