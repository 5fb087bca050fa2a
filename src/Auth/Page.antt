-- ===== src/Auth/Page.antt =====
-- google_authentication/auth_server.go: the page that shows a token, without its emoji.
use distributed_messaging_sy.Base.{Bytes, bytes, ◌++◌}

-- The page up to the token
page_head : Bytes
page_head =
    bytes "\n"
    ++ bytes "\t<!DOCTYPE html>\n"
    ++ bytes "\t<html lang=\"en\">\n"
    ++ bytes "\t<head>\n"
    ++ bytes "\t  <meta charset=\"UTF-8\">\n"
    ++ bytes "\t  <title>JWT Token</title>\n"
    ++ bytes "\t  <style>\n"
    ++ bytes "\t\tbody {\n"
    ++ bytes "\t\t  background-color: #1e1e1e;\n"
    ++ bytes "\t\t  color: #d4d4d4;\n"
    ++ bytes "\t\t  font-family: \"SF Mono\", \"Fira Code\", monospace;\n"
    ++ bytes "\t\t  padding: 2rem;\n"
    ++ bytes "\t\t  display: flex;\n"
    ++ bytes "\t\t  justify-content: center;\n"
    ++ bytes "\t\t  align-items: center;\n"
    ++ bytes "\t\t  height: 100vh;\n"
    ++ bytes "\t\t}\n"
    ++ bytes "\t\t.container {\n"
    ++ bytes "\t\t  background: #2d2d2d;\n"
    ++ bytes "\t\t  border-radius: 10px;\n"
    ++ bytes "\t\t  padding: 2rem;\n"
    ++ bytes "\t\t  max-width: 800px;\n"
    ++ bytes "\t\t  width: 100%;\n"
    ++ bytes "\t\t  box-shadow: 0 0 20px rgba(0,0,0,0.5);\n"
    ++ bytes "\t\t}\n"
    ++ bytes "\t\t.title {\n"
    ++ bytes "\t\t  font-size: 20px;\n"
    ++ bytes "\t\t  margin-bottom: 1rem;\n"
    ++ bytes "\t\t}\n"
    ++ bytes "\t\t.code-block {\n"
    ++ bytes "\t\t  background: #1e1e1e;\n"
    ++ bytes "\t\t  border: 1px solid #444;\n"
    ++ bytes "\t\t  border-radius: 8px;\n"
    ++ bytes "\t\t  padding: 1rem;\n"
    ++ bytes "\t\t  overflow-x: auto;\n"
    ++ bytes "\t\t  word-break: break-all;\n"
    ++ bytes "\t\t  white-space: pre-wrap;\n"
    ++ bytes "\t\t  position: relative;\n"
    ++ bytes "\t\t}\n"
    ++ bytes "\t\tbutton.copy {\n"
    ++ bytes "\t\t  position: absolute;\n"
    ++ bytes "\t\t  top: 10px;\n"
    ++ bytes "\t\t  right: 10px;\n"
    ++ bytes "\t\t  background-color: #3c3c3c;\n"
    ++ bytes "\t\t  color: #ddd;\n"
    ++ bytes "\t\t  border: 1px solid #555;\n"
    ++ bytes "\t\t  border-radius: 4px;\n"
    ++ bytes "\t\t  padding: 4px 10px;\n"
    ++ bytes "\t\t  cursor: pointer;\n"
    ++ bytes "\t\t  font-size: 12px;\n"
    ++ bytes "\t\t}\n"
    ++ bytes "\t\tbutton.copy:hover {\n"
    ++ bytes "\t\t  background-color: #555;\n"
    ++ bytes "\t\t}\n"
    ++ bytes "\t\t.copied {\n"
    ++ bytes "\t\t  color: #4caf50;\n"
    ++ bytes "\t\t  font-size: 14px;\n"
    ++ bytes "\t\t  margin-top: 10px;\n"
    ++ bytes "\t\t  display: none;\n"
    ++ bytes "\t\t}\n"
    ++ bytes "\t  </style>\n"
    ++ bytes "\t</head>\n"
    ++ bytes "\t<body>\n"
    ++ bytes "\t  <div class=\"container\">\n"
    ++ bytes "\t\t<div class=\"title\"> Your JWT Token</div>\n"
    ++ bytes "\t\t<div class=\"code-block\" id=\"block\">\n"
    ++ bytes "\t\t  <button class=\"copy\" onclick=\"copyToClipboard()\">Copy</button>\n"
    ++ bytes "\t\t  <code id=\"jwt\">"

-- The page from there on
page_tail : Bytes
page_tail =
    bytes "</code>\n"
    ++ bytes "\t\t</div>\n"
    ++ bytes "\t\t<div id=\"copiedText\" class=\"copied\"> Copied!</div>\n"
    ++ bytes "\t  </div>\n"
    ++ bytes "\t\n"
    ++ bytes "\t  <script>\n"
    ++ bytes "\t\tfunction copyToClipboard() {\n"
    ++ bytes "\t\t  const jwt = document.getElementById(\"jwt\").innerText;\n"
    ++ bytes "\t\t  navigator.clipboard.writeText(jwt).then(() => {\n"
    ++ bytes "\t\t\tconst copied = document.getElementById(\"copiedText\");\n"
    ++ bytes "\t\t\tcopied.style.display = \"block\";\n"
    ++ bytes "\t\t\tsetTimeout(() => copied.style.display = \"none\", 2000);\n"
    ++ bytes "\t\t  });\n"
    ++ bytes "\t\t}\n"
    ++ bytes "\t  </script>\n"
    ++ bytes "\t</body>\n"
    ++ bytes "\t</html>\n"
    ++ bytes "\t"

unfoldable pub token_page : Bytes → Bytes
unfolding page_head page_tail
token_page token = page_head ++ token ++ page_tail
