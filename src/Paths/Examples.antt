-- ===== src/Paths/Examples.antt =====
-- A path on which the theorem about package names is applied.
use flash_code_graph.Common.Lists.{All}
use flash_code_graph.Common.Text.{text}
use flash_code_graph.Paths.{IsFlat, derive_package, derive_package-IsFlat}

package-IsFlat : All IsFlat (derive_package (text "src/utils/index.tsx"))
package-IsFlat = derive_package-IsFlat (text "src/utils/index.tsx")
