-- ===== src/Web/IndexPage.antt =====
-- `Index` of internal/templates/index_templ.go, generated from index.templ.
pub mod Rendering
use wish_operator.Common.{
  ℕ, Bool, true, false, Option, none, some, List, [], ◌∷◌, ◌++◌, Str, str, ◌=s=◌, if◌then◌else◌,
}
use wish_operator.Wish.{Wish}
use wish_operator.I18n.{translate, FormatTime}
use wish_operator.Web.Html.{Piece, raw, escaped, attribute, classes, prepend_pieces, append_pieces}
use wish_operator.Web.Content.{CardTimes, wish_content}

-- The style sheet and the script of the page, with the elements around them.
style_and_script : Str
style_and_script =
    str
      "</title><script src=\"https://unpkg.com/htmx.org@2.0.4\"></script><script>\n\t\t\t\t(function() {\n\t\t\t\t\tconst theme = localStorage.getItem('theme');\n\t\t\t\t\tif (theme === 'dark' || (theme === 'auto' || !theme) && window.matchMedia('(prefers-color-scheme: dark)').matches) {\n\t\t\t\t\t\tdocument.documentElement.setAttribute('data-theme', 'dark');\n\t\t\t\t\t}\n\t\t\t\t})();\n\t\t\t</script><style>\n\t\t\t\t:root {\n\t\t\t\t\t--bg-primary: #f5f5f5;\n\t\t\t\t\t--bg-card: #ffffff;\n\t\t\t\t\t--text-primary: #333333;\n\t\t\t\t\t--text-secondary: #6b7280;\n\t\t\t\t\t--text-muted: #374151;\n\t\t\t\t\t--border-color: #d1d5db;\n\t\t\t\t\t--border-hover: #9ca3af;\n\t\t\t\t\t--accent-color: #2563eb;\n\t\t\t\t\t--accent-hover: #1d4ed8;\n\t\t\t\t\t--tag-bg: #e5e7eb;\n\t\t\t\t\t--tag-context-bg: #dbeafe;\n\t\t\t\t\t--tag-context-text: #1d4ed8;\n\t\t\t\t\t--reserved-bg: #fef3c7;\n\t\t\t\t\t--reserved-text: #92400e;\n\t\t\t\t\t--stars-color: #fbbf24;\n\t\t\t\t\t--chip-bg: #ffffff;\n\t\t\t\t\t--chip-hover: #f3f4f6;\n\t\t\t\t\t--shadow: rgba(0,0,0,0.1);\n\t\t\t\t\t--footer-border: #e5e7eb;\n\t\t\t\t}\n\t\t\t\t[data-theme=\"dark\"] {\n\t\t\t\t\t--bg-primary: #1a1a2e;\n\t\t\t\t\t--bg-card: #16213e;\n\t\t\t\t\t--text-primary: #e4e4e7;\n\t\t\t\t\t--text-secondary: #a1a1aa;\n\t\t\t\t\t--text-muted: #d4d4d8;\n\t\t\t\t\t--border-color: #3f3f46;\n\t\t\t\t\t--border-hover: #52525b;\n\t\t\t\t\t--accent-color: #3b82f6;\n\t\t\t\t\t--accent-hover: #2563eb;\n\t\t\t\t\t--tag-bg: #27272a;\n\t\t\t\t\t--tag-context-bg: #1e3a5f;\n\t\t\t\t\t--tag-context-text: #60a5fa;\n\t\t\t\t\t--reserved-bg: #422006;\n\t\t\t\t\t--reserved-text: #fbbf24;\n\t\t\t\t\t--stars-color: #fbbf24;\n\t\t\t\t\t--chip-bg: #27272a;\n\t\t\t\t\t--chip-hover: #3f3f46;\n\t\t\t\t\t--shadow: rgba(0,0,0,0.3);\n\t\t\t\t\t--footer-border: #3f3f46;\n\t\t\t\t}\n\t\t\t\t* { box-sizing: border-box; margin: 0; padding: 0; }\n\t\t\t\tbody { font-family: system-ui, -apple-system, sans-serif; background: var(--bg-primary); padding: 2rem; color: var(--text-primary); transition: background 0.3s, color 0.3s; }\n\t\t\t\t.container { max-width: 1200px; margin: 0 auto; }\n\t\t\t\th1 { text-align: center; margin-bottom: 2rem; color: var(--text-primary); }\n\t\t\t\t.wishes { display: grid; grid-template-columns: repeat(auto-fill, minmax(300px, 1fr)); gap: 1.5rem; }\n\t\t\t\t.wish-card { background: var(--bg-card); border-radius: 12px; padding: 1.5rem; box-shadow: 0 2px 8px var(--shadow); transition: background 0.3s; }\n\t\t\t\t.wish-card.reserved { opacity: 0.7; }\n\t\t\t\t.wish-card img { width: 100%; height: 200px; object-fit: contain; border-radius: 8px; margin-bottom: 1rem; }\n\t\t\t\t.wish-card h2 { font-size: 1.25rem; margin-bottom: 0.5rem; color: var(--text-primary); }\n\t\t\t\t.wish-card h2 a { color: var(--accent-color); text-decoration: none; }\n\t\t\t\t.wish-card h2 a:hover { text-decoration: underline; }\n\t\t\t\t.wish-card .price { font-size: 1.5rem; font-weight: bold; color: var(--accent-color); margin-bottom: 0.5rem; }\n\t\t\t\t.wish-card .stars { color: var(--stars-color); margin-bottom: 0.5rem; }\n\t\t\t\t.wish-card .tags { display: flex; flex-wrap: wrap; gap: 0.5rem; margin-bottom: 1rem; }\n\t\t\t\t.wish-card .tag { background: var(--tag-bg); color: var(--text-secondary); padding: 0.25rem 0.75rem; border-radius: 9999px; font-size: 0.875rem; }\n\t\t\t\t.wish-card .context-tag { background: var(--tag-context-bg); color: var(--tag-context-text); }\n\t\t\t\t.wish-card .description { color: var(--text-secondary); font-size: 0.875rem; margin-bottom: 1rem; }\n\t\t\t\t.wish-card .purchase-links { margin-bottom: 1rem; font-size: 0.875rem; color: var(--text-secondary); }\n\t\t\t\t.wish-card .purchase-links a { color: var(--accent-color); margin-left: 0.25rem; }\n\t\t\t\t.wish-card .reserve-form { display: flex; gap: 0.5rem; }\n\t\t\t\t.wish-card select, .wish-card button { padding: 0.5rem 1rem; border-radius: 6px; border: 1px solid var(--border-color); background: var(--bg-card); color: var(--text-primary); }\n\t\t\t\t.wish-card button { background: var(--accent-color); color: white; border: none; cursor: pointer; }\n\t\t\t\t.wish-card button:hover { background: var(--accent-hover); }\n\t\t\t\t.wish-card .reserved-badge { background: var(--reserved-bg); color: var(--reserved-text); padding: 0.5rem 1rem; border-radius: 6px; text-align: center; }\n\t\t\t\t.wish-card .reserved-until { font-size: 0.75rem; margin-top: 0.25rem; opacity: 0.8; }\n\t\t\t\t.wish-card.fully-reserved { opacity: 0.7; }\n\t\t\t\t.wish-card .quantity-info { font-size: 0.875rem; color: var(--text-secondary); margin-bottom: 0.5rem; }\n\t\t\t\t.wish-card .quantity-info.unlimited { color: #10b981; font-weight: 600; }\n\t\t\t\t.wish-card .reservations-list { margin-bottom: 1rem; }\n\t\t\t\t.wish-card .reservation-item { font-size: 0.75rem; color: var(--reserved-text); background: var(--reserved-bg); padding: 0.25rem 0.5rem; border-radius: 4px; margin-bottom: 0.25rem; }\n\t\t\t\t.wish-card .fully-reserved-badge { background: var(--reserved-bg); color: var(--reserved-text); padding: 0.5rem 1rem; border-radius: 6px; text-align: center; }\n\t\t\t\t.empty { text-align: center; color: var(--text-secondary); padding: 4rem; }\n\t\t\t\t.filter-bar { display: flex; flex-wrap: wrap; gap: 0.5rem; margin-bottom: 1.5rem; align-items: center; }\n\t\t\t\t.filter-label { font-weight: 500; color: var(--text-muted); margin-right: 0.5rem; }\n\t\t\t\t.filter-chip { padding: 0.375rem 0.875rem; border-radius: 9999px; font-size: 0.875rem; cursor: pointer; border: 1px solid var(--border-color); background: var(--chip-bg); color: var(--text-muted); transition: all 0.15s; text-decoration: none; }\n\t\t\t\t.filter-chip:hover { background: var(--chip-hover); border-color: var(--border-hover); }\n\t\t\t\t.filter-chip.active { background: var(--accent-color); color: white; border-color: var(--accent-color); }\n\t\t\t\t.footer { margin-top: 3rem; padding-top: 1.5rem; border-top: 1px solid var(--footer-border); text-align: center; }\n\t\t\t\t.footer-row { display: flex; justify-content: center; gap: 1rem; margin-bottom: 0.75rem; }\n\t\t\t\t.footer-row:last-child { margin-bottom: 0; }\n\t\t\t\t.lang-selector a, .theme-selector button { font-size: 1.5rem; text-decoration: none; opacity: 0.6; transition: opacity 0.15s; background: none; border: none; cursor: pointer; padding: 0.25rem; }\n\t\t\t\t.lang-selector a:hover, .theme-selector button:hover { opacity: 1; }\n\t\t\t\t.lang-selector a.active, .theme-selector button.active { opacity: 1; }\n\t\t\t</style></head><body><div class=\"container\"><h1>"

theme_buttons_and_script : Str
theme_buttons_and_script =
    str
      "\" title=\"中文\">🇨🇳</a></div><div class=\"footer-row theme-selector\"><button onclick=\"setTheme('light')\" id=\"theme-light\" title=\"Light\">☀\u{fe0f}</button> <button onclick=\"setTheme('auto')\" id=\"theme-auto\" title=\"Auto\">🌓</button> <button onclick=\"setTheme('dark')\" id=\"theme-dark\" title=\"Dark\">🌙</button></div></footer></div><script>\n\t\t\t\tfunction setTheme(theme) {\n\t\t\t\t\tlocalStorage.setItem('theme', theme);\n\t\t\t\t\tupdateTheme();\n\t\t\t\t}\n\t\t\t\tfunction updateTheme() {\n\t\t\t\t\tconst theme = localStorage.getItem('theme') || 'auto';\n\t\t\t\t\tconst isDark = theme === 'dark' || (theme === 'auto' && window.matchMedia('(prefers-color-scheme: dark)').matches);\n\t\t\t\t\tdocument.documentElement.setAttribute('data-theme', isDark ? 'dark' : 'light');\n\t\t\t\t\tdocument.querySelectorAll('.theme-selector button').forEach(btn => btn.classList.remove('active'));\n\t\t\t\t\tdocument.getElementById('theme-' + theme)?.classList.add('active');\n\t\t\t\t}\n\t\t\t\tupdateTheme();\n\t\t\t\twindow.matchMedia('(prefers-color-scheme: dark)').addEventListener('change', updateTheme);\n\t\t\t</script></body></html>"

-- `{ templ.KV("active", active) }`
active_class : Bool → Piece
active_class active = classes (if active then str "active" ∷ [] else [])

page_start : Str → List Piece
unfolding style_and_script
page_start lang =
    raw (str "<!doctype html><html lang=\"")
    ∷ attribute lang
    ∷ raw (
        str
          "\"><head><meta charset=\"UTF-8\"><meta name=\"viewport\" content=\"width=device-width, initial-scale=1.0\"><title>")
    ∷ escaped (translate lang (str "page_title"))
    ∷ raw style_and_script
    ∷ escaped (translate lang (str "page_title"))
    ∷ raw (str "</h1><div id=\"wish-content\">")
    ∷ []

page_end : Str → List Piece
unfolding active_class theme_buttons_and_script
page_end lang =
    raw (str "</div><footer class=\"footer\"><div class=\"footer-row lang-selector\">")
    ∷ raw (str "<a href=\"/?lang=en\" class=\"")
    ∷ active_class (lang =s= str "en")
    ∷ raw (str "\" title=\"English\">🇬🇧</a> ")
    ∷ raw (str "<a href=\"/?lang=ru\" class=\"")
    ∷ active_class (lang =s= str "ru")
    ∷ raw (str "\" title=\"Русский\">🇷🇺</a> ")
    ∷ raw (str "<a href=\"/?lang=zh\" class=\"")
    ∷ active_class (lang =s= str "zh")
    ∷ raw theme_buttons_and_script
    ∷ []

unfoldable pub index_page :
    ℕ → FormatTime → CardTimes → List Wish → List Str → Str → Str → Option (List Piece)
unfolding page_start page_end style_and_script theme_buttons_and_script prepend_pieces append_pieces
index_page fuel format times wishes all_tags active_tag lang =
    prepend_pieces (page_start lang) (
      append_pieces (wish_content fuel format times wishes all_tags active_tag lang)
        (page_end lang))
