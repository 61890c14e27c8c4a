-- ===== src/Scan/Catalog.antt =====
-- packages/shared/src/check-catalog.ts: the checks that exist, and which worker runs them.
use scan_pal.Common.{Option, List, [], ◌∷◌, Bool, true, false, ◌||◌, String, str_eq, select, find}
use scan_pal.Scan.Finding.{Category, same_category}

pub record CheckCatalogEntry : Type 0 where
  pub id : String
  pub category : Category
  pub name : String
  pub active : Bool

abbrev entry : String → Category → String → Bool → CheckCatalogEntry
entry id category name active = record {
  id = id;
  category = category;
  name = name;
  active = active;
}

unfoldable pub check_catalog : List CheckCatalogEntry
check_catalog =
    entry "reachability" Category.http "Reachability" false
    ∷ entry "https" Category.http "HTTPS" false
    ∷ entry "security-header-csp" Category.http "Content-Security-Policy (CSP)" false
    ∷ entry "security-header-hsts" Category.http "HSTS (Strict-Transport-Security)" false
    ∷ entry "security-header-xcto" Category.http "X-Content-Type-Options" false
    ∷ entry "security-header-xfo" Category.http "X-Frame-Options" false
    ∷ entry "security-header-referrer-policy" Category.http "Referrer-Policy" false
    ∷ entry "security-header-permissions-policy" Category.http "Permissions-Policy" false
    ∷ entry "security-header-coop" Category.http "Cross-Origin-Opener-Policy (COOP)" false
    ∷ entry "security-header-coep" Category.http "Cross-Origin-Embedder-Policy (COEP)" false
    ∷ entry "cookie-httponly" Category.http "Cookie HttpOnly" false
    ∷ entry "cookie-secure" Category.http "Cookie Secure" false
    ∷ entry "cookie-samesite" Category.http "Cookie SameSite" false
    ∷ entry "cookie-prefixes" Category.http "Cookie prefix (__Host-/__Secure-)" false
    ∷ entry "cookie-expiry" Category.http "Cookie expiry (Expires/Max-Age)" false
    ∷ entry "cors" Category.http "CORS-configuratie" false
    ∷ entry "tls-cert" Category.http "TLS/SSL-certificaat" false
    ∷ entry "domain-watchtower" Category.http "Domain watchtower" false
    ∷ entry "dns-email" Category.http "DNS & e-mail (SPF/DKIM/DMARC)" false
    ∷ entry "subdomain-takeover" Category.http "Subdomain-takeover (dangling CNAME)" false
    ∷ entry "threat-intel" Category.http "Threat Intelligence & reputatie" false
    ∷ entry "redirects-mixed" Category.http "Redirects & mixed content" false
    ∷ entry "secrets-in-html" Category.http "Secrets in HTML" false
    ∷ entry "secrets-in-bundles" Category.http "Secrets in JS-bundles" false
    ∷ entry "subresources" Category.http "Subresource-integriteit" false
    ∷ entry "meta-tags" Category.seo "Meta & OG-tags" false
    ∷ entry "robots-sitemap" Category.seo "robots.txt & sitemap" false
    ∷ entry "security-txt" Category.seo "security.txt, favicon, 404" false
    ∷ entry "mini-crawl" Category.seo "Interne links & broken links" false
    ∷ entry "structured-data" Category.seo "Structured data (JSON-LD)" false
    ∷ entry "stack-detection" Category.seo "Stackdetectie (CMS/framework)" false
    ∷ entry "hosting-security" Category.http "Hosting-fingerprint & platform-security" false
    ∷ entry "observability-signals" Category.http "Observability & monitoring-signalen" false
    ∷ entry "waf-resilience" Category.http "WAF/CDN-weerbaarheid & rate-limit" false
    ∷ entry "aeo-engine-matrix" Category.aeo "AEO engine-matrix & llms.txt" false
    ∷ entry "core-web-vitals" Category.aeo "Core Web Vitals" false
    ∷ entry "crux-field-data" Category.aeo "CrUX field data (real-user CWV)" false
    ∷ entry "accessibility" Category.aeo "Accessibility (axe-core)" false
    ∷ entry "aeo-scan" Category.aeo "AEO-content & LLM-parsability" false
    ∷ entry "console-errors" Category.aeo "Console-errors & network-failures" false
    ∷ entry "mobile-responsive" Category.aeo "Mobile / responsive" false
    ∷ entry "browser-storage" Category.aeo "Browser storage & session-tokens" false
    ∷ entry "semgrep" Category.github "Semgrep (SAST)" false
    ∷ entry "gitleaks" Category.github "Gitleaks (secrets)" false
    ∷ entry "osv-scanner" Category.github "OSV-Scanner (deps)" false
    ∷ entry "client-deps-cve" Category.http "Client-side dependencies & CVE" false
    ∷ entry "client-deps-runtime" Category.aeo "Client-side dependencies (runtime)" false
    ∷ entry "repo-health" Category.github "Repo-health" false
    ∷ entry "cookie-banner" Category.compliance "Cookie-banner / CMP-detectie" false
    ∷ entry "consent-api" Category.compliance "Consent-API" false
    ∷ entry "privacy-policy" Category.compliance "Privacy-policy" false
    ∷ entry "legal-pages" Category.compliance "Legal-pagina's" false
    ∷ entry "gdpr-signals" Category.compliance "GDPR-signalen" false
    ∷ entry "sqli-probe" Category.http "SQL-injection probe" true
    ∷ entry "xss-probe" Category.http "Reflected XSS probe" true
    ∷ entry "csrf-check" Category.http "CSRF-token-aanwezigheid" true
    ∷ entry "open-redirect-probe" Category.http "Open redirect probe" true
    ∷ entry "idor-probe" Category.http "IDOR / sequentiële id-probe" true
    ∷ entry "input-validation" Category.http "Input validation probe" true
    ∷ entry "debug-endpoints" Category.http "Debug/admin-endpoints detectie" true
    ∷ entry "graphql-introspection" Category.http "GraphQL introspection" true
    ∷ entry "jwt-audit" Category.http "JWT-zwakke-algoritme/key-audit" true
    ∷ entry "webhook-signature" Category.http "Webhook-handlers zonder signature-verificatie" true
    ∷ entry "tenant-isolation" Category.http "Cross-tenant leestoegang" true
    ∷ entry "rate-limit-burst" Category.http "Rate-limit burst-probe" true
    ∷ entry "auth-transport" Category.http "Auth-pagina's: HTTPS & wachtwoord-autocomplete" true
    ∷ entry "auth-csrf" Category.http "CSRF-bescherming op auth-formulieren" true
    ∷ entry "auth-user-enumeration" Category.http "User-enumeration via reset-flow" true
    ∷ entry "auth-rate-limit" Category.http "Rate-limiting op login" true
    ∷ entry "auth-password-policy" Category.http "Wachtwoord-policy bij signup/reset" true
    ∷ entry "auth-session-security" Category.http "Sessie-cookie-beveiliging & session-fixation"
        true
    ∷ entry "auth-mfa" Category.http "Multi-factor authenticatie" true
    ∷ entry "upload-unrestricted-type" Category.http "Onbeperkte bestandstypes bij upload" true
    ∷ entry "upload-executable" Category.http "Uitvoerbare upload (RCE-klasse)" true
    ∷ entry "upload-content-sniff" Category.http "Content-type sniffing bij upload" true
    ∷ entry "upload-size-limit" Category.http "Ontbrekende upload-groottelimiet" true
    ∷ entry "upload-path-traversal" Category.http "Path-traversal in bestandsnaam" true
    ∷ entry "supabase-security" Category.http "Supabase-security (RLS / key-exposure)" false
    ∷ entry "firebase-security" Category.http "Firebase-security (rules / bucket-access)" false
    ∷ entry "convex-security" Category.http "Convex-security (open endpoints)" false
    ∷ []

unfoldable pub checks_for_category : Category → List CheckCatalogEntry
checks_for_category c = select (λ (e : CheckCatalogEntry). same_category e.category c) check_catalog

unfoldable pub check_by_id : String → Option CheckCatalogEntry
check_by_id id = find (λ (e : CheckCatalogEntry). str_eq e.id id) check_catalog

pub data QueueName : Type 0 where
  http browser github : QueueName

-- `queueCategories[queue].includes(category)`.
abbrev pub runs_category : QueueName → Category → Bool
runs_category QueueName.http c =
    same_category c Category.http
    || same_category c Category.seo
    || same_category c Category.compliance
runs_category QueueName.browser c = same_category c Category.aeo
runs_category QueueName.github c = same_category c Category.github

unfoldable pub checks_for_queue : QueueName → List CheckCatalogEntry
checks_for_queue q = select (λ (e : CheckCatalogEntry). runs_category q e.category) check_catalog
