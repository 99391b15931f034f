-- ===== src/Export/Content.antt =====
-- `generateContent` of apps/server/src/subscriptions/subscriptions.service.ts, from the nodes that the
-- subscription exports on: their links, one to a line, in Base64.
pub mod Imports
use nextpanel.Prelude.{Option, none, some, List, [], ◌∷◌, Text, join}
use nextpanel.Prelude.Options.{◌>>=◌}
use nextpanel.Uri.Platform.{Host}
use nextpanel.Export.{NodeExportInfo}
use nextpanel.Export.ShareUri.{Printer, build_share_uri}

-- a node that has no link is left out
abbrev pub with_line : Option Text → List Text → List Text
with_line none lines = lines
with_line (some line) lines = line ∷ lines

unfoldable pub share_lines : Host → Printer → List NodeExportInfo → Option (List Text)
unfolding build_share_uri
share_lines host printer [] = some []
share_lines host printer (node ∷ nodes) = do
  line ← build_share_uri host printer node
  lines ← share_lines host printer nodes
  some (with_line line lines)

unfoldable pub generate_content : Host → Printer → List NodeExportInfo → Option Text
unfolding share_lines join
generate_content host printer nodes = do
  lines ← share_lines host printer nodes
  some (printer.base64_of (join b'\n' lines))
